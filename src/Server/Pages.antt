-- ===== src/Server/Pages.antt =====
-- The pages and header values that src/Server.cpp writes itself.
use lazy_team.Base.{
  List, [], ◌∷◌, ◌++◌, Option, none, some, ◌==◌, if◌then◌else◌, Outcome, ok, fault, null_pointer,
}
use lazy_team.Text.{Bytes, codes}
use lazy_team.StringMap.{lookup}

-- `makeHTMLPage`
unfoldable pub make_html_page : Bytes → Bytes
make_html_page str =
    codes "<!DOCTYPE html>\n<html>\n<head>\n</head>\n<body>\n<h1>"
    ++ (str ++ codes "<h1>\n</body>\n</html>")

-- One link for each name in the directory.
unfoldable pub links : Bytes → List Bytes → Bytes
links addr [] = []
links addr (name ∷ names) =
    codes "<a href=\""
    ++ (addr ++ (name ++ (codes "\">" ++ (name ++ (codes "</a><br>\n" ++ links addr names)))))

-- `makeAutoIndexPage`, given the host, the target and what `opendir` found: with no directory it makes
-- a string of a null pointer.
unfoldable pub make_auto_index_page : Bytes → Bytes → Option (List Bytes) → Outcome Bytes
unfolding links
make_auto_index_page host uri none = fault null_pointer
make_auto_index_page host uri (some names) =
    let addr = codes "http://" ++ (host ++ (uri ++ codes "/")) in
    ok (
      codes "<!DOCTYPE html>\n<html>\n<head>\n</head>\n<body>\n<h1> Index of "
      ++ (uri ++ (codes "</h1>\n" ++ (links addr names ++ codes "</body>\n</html>\n"))))

-- The part of a text behind its last dot, the dot included, if there is a dot.
last_dot : Bytes → Option Bytes
last_dot [] = none
last_dot (c ∷ s) = elim (last_dot s) [
  | some found ↦ some found
  | none ↦ if c == b'.' then some (c ∷ s) else none
]

unfoldable pub file_extension : Bytes → Bytes
unfolding last_dot
file_extension path = elim (last_dot path) [ some extension ↦ extension | none ↦ path ]

abbrev entry : Bytes → Bytes → Bytes × Bytes
entry k v = (k, v)

-- `mime_types`, in the order of its assignments; no key stands twice.
abbrev pub mime_types : List (Bytes × Bytes)
mime_types =
    entry (codes ".aac") (codes "audio/aac")
    ∷ entry (codes ".abw") (codes "application/x-abiword")
    ∷ entry (codes ".arc") (codes "application/octet-stream")
    ∷ entry (codes ".avi") (codes "video/x-msvideo")
    ∷ entry (codes ".azw") (codes "application/vnd.amazon.ebook")
    ∷ entry (codes ".bin") (codes "application/octet-stream")
    ∷ entry (codes ".bz") (codes "application/x-bzip")
    ∷ entry (codes ".bz2") (codes "application/x-bzip2")
    ∷ entry (codes ".csh") (codes "application/x-csh")
    ∷ entry (codes ".css") (codes "text/css")
    ∷ entry (codes ".csv") (codes "text/csv")
    ∷ entry (codes ".doc") (codes "application/msword")
    ∷ entry (codes ".epub") (codes "application/epub+zip")
    ∷ entry (codes ".Gif") (codes "image/gif")
    ∷ entry (codes ".htm") (codes "text/html")
    ∷ entry (codes ".html") (codes "text/html")
    ∷ entry (codes ".ico") (codes "image/x-icon")
    ∷ entry (codes ".ics") (codes "text/calendar")
    ∷ entry (codes ".jar") (codes "Temporary Redirect")
    ∷ entry (codes ".jpeg") (codes "image/jpeg")
    ∷ entry (codes ".jpg") (codes "image/jpeg")
    ∷ entry (codes ".js") (codes "application/js")
    ∷ entry (codes ".json") (codes "application/json")
    ∷ entry (codes ".mid") (codes "audio/midi")
    ∷ entry (codes ".midi") (codes "audio/midi")
    ∷ entry (codes ".mpeg") (codes "video/mpeg")
    ∷ entry (codes ".mpkg") (codes "application/vnd.apple.installer+xml")
    ∷ entry (codes ".odp") (codes "application/vnd.oasis.opendocument.presentation")
    ∷ entry (codes ".ods") (codes "application/vnd.oasis.opendocument.spreadsheet")
    ∷ entry (codes ".odt") (codes "application/vnd.oasis.opendocument.text")
    ∷ entry (codes ".oga") (codes "audio/ogg")
    ∷ entry (codes ".ogv") (codes "video/ogg")
    ∷ entry (codes ".ogx") (codes "application/ogg")
    ∷ entry (codes ".pdf") (codes "application/pdf")
    ∷ entry (codes ".ppt") (codes "application/vnd.ms-powerpoint")
    ∷ entry (codes ".rar") (codes "application/x-rar-compressed")
    ∷ entry (codes ".rtf") (codes "application/rtf")
    ∷ entry (codes ".sh") (codes "application/x-sh")
    ∷ entry (codes ".svg") (codes "image/svg+xml")
    ∷ entry (codes ".swf") (codes "application/x-shockwave-flash")
    ∷ entry (codes ".tar") (codes "application/x-tar")
    ∷ entry (codes ".tif") (codes "image/tiff")
    ∷ entry (codes ".tiff") (codes "image/tiff")
    ∷ entry (codes ".ttf") (codes "application/x-font-ttf")
    ∷ entry (codes ".vsd") (codes " application/vnd.visio")
    ∷ entry (codes ".wav") (codes "audio/x-wav")
    ∷ entry (codes ".weba") (codes "audio/webm")
    ∷ entry (codes ".webm") (codes "video/webm")
    ∷ entry (codes ".webp") (codes "image/webp")
    ∷ entry (codes ".woff") (codes "application/x-font-woff")
    ∷ entry (codes ".xhtml") (codes "application/xhtml+xml")
    ∷ entry (codes ".xls") (codes "application/vnd.ms-excel")
    ∷ entry (codes ".xml") (codes "application/xml")
    ∷ entry (codes ".xul") (codes "application/vnd.mozilla.xul+xml")
    ∷ entry (codes ".zip") (codes "application/zip")
    ∷ entry (codes ".3gp") (codes "video/3gpp audio/3gpp")
    ∷ entry (codes ".3g2") (codes "video/3gpp2 audio/3gpp2")
    ∷ entry (codes ".7z") (codes "application/x-7z-compressed")
    ∷ []

-- `contentTypeHeaderInfo`
unfoldable pub content_type_header_info : Bytes → Bytes
content_type_header_info extension = elim (lookup extension mime_types) [
  | some t ↦ t
  | none ↦ codes "text/plain"
]
