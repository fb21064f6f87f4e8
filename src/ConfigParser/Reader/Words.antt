-- ===== src/ConfigParser/Reader/Words.antt =====
-- The words of a line in src/ConfigParser.cpp.
use lazy_team.Base.{
  ℕ, zero, suc, ◌+◌, ◌<◌, false, List, [], ◌∷◌, ◌++◌, ◌≡◌, refl, ap, ◌∙◌, arith, length, All,
  length-append, failed_assert,
}
use lazy_team.Text.{
  Bytes, IsWord, is_space, skip_space, word, after_word, word_blank, after_word_blank, word_all,
  after_word_all,
}
use lazy_team.ConfigParser.Replies.{Reply, done, aborted}
use lazy_team.ConfigParser.Reader.{words, elements_of}

-- Words with a blank between each two.
unfoldable pub joined : List Bytes → Bytes
joined [] = []
joined (w ∷ []) = w
joined (w ∷ v ∷ ws) = w ++ b' ' ∷ joined (v ∷ ws)

-- A round of the loop, over what is behind the blanks.
word_round :
    (fuel c : ℕ) (s : Bytes)
    → is_space c ≡ false
    → words (suc fuel) (c ∷ s) ≡ word (c ∷ s) ∷ words fuel (after_word (c ∷ s))
unfolding words skip_space
word_round fuel c s e =
    ap (λ (t : Bytes). elim t [ [] ↦ [] | c ∷ r ↦ word (c ∷ r) ∷ words fuel (after_word (c ∷ r)) ])
      (skip_none c s e)
  where
    skip_none : (c : ℕ) (s : Bytes) → is_space c ≡ false → skip_space (c ∷ s) ≡ c ∷ s
    skip_none c s e = rw e refl

words-nil : (fuel : ℕ) → words fuel [] ≡ []
unfolding words skip_space
words-nil zero = refl
words-nil (suc fuel) = refl

words-blank : (fuel : ℕ) (s : Bytes) → words fuel (b' ' ∷ s) ≡ words fuel s
unfolding words skip_space is_space
words-blank zero s = refl
words-blank (suc fuel) s = refl

words-joined :
    (fuel : ℕ) (ws : List Bytes)
    → All IsWord ws
    → length (joined ws) < fuel
    → words fuel (joined ws) ≡ ws
unfolding joined
words-joined zero ws a l = absurd (omega arith)
words-joined (suc fuel) [] a l = words-nil (suc fuel)
words-joined (suc fuel) ([] ∷ ws) a l = absurd (a.0.0 refl)
words-joined (suc fuel) ((c ∷ w) ∷ []) (h, a) l =
    word_round fuel c w h.1.0
    ∙ ap (◌∷◌ (word (c ∷ w))) (ap (words fuel) (after_word_all (c ∷ w) h.1) ∙ words-nil fuel)
    ∙ ap (λ (v : Bytes). v ∷ []) (word_all (c ∷ w) h.1)
words-joined (suc fuel) ((c ∷ w) ∷ v ∷ ws) (h, a) l =
    word_round fuel c (w ++ b' ' ∷ joined (v ∷ ws)) h.1.0
    ∙ ap (◌∷◌ (word ((c ∷ w) ++ b' ' ∷ joined (v ∷ ws)))) (
        ap (words fuel) (after_word_blank (c ∷ w) (joined (v ∷ ws)) h.1)
        ∙ words-blank fuel (joined (v ∷ ws))
        ∙ words-joined fuel (v ∷ ws) a (omega (arith, length-append w (b' ' ∷ joined (v ∷ ws)))))
    ∙ ap (λ (u : Bytes). u ∷ v ∷ ws) (word_blank (c ∷ w) (joined (v ∷ ws)) h.1)

done_words :
    (w : Bytes) (ws xs : List Bytes)
    → xs ≡ w ∷ ws
    → ◌≡◌ {A = Reply (List Bytes)}
        (elim xs as (λ x. Reply (List Bytes)) [
          | [] ↦ aborted failed_assert
          | w ∷ ws ↦ done (w ∷ ws)
        ])
        (done (w ∷ ws))
done_words w ws xs e = rw e refl

-- A line of words, written with a blank between each two, is taken apart into these words.
pub elements_of-joined :
    (w : Bytes) (ws : List Bytes)
    → All IsWord (w ∷ ws)
    → elements_of (joined (w ∷ ws)) ≡ done (w ∷ ws)
unfolding elements_of
elements_of-joined w ws a =
    done_words w ws _ (words-joined (length (joined (w ∷ ws)) + 1) (w ∷ ws) a (omega arith))
