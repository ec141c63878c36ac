-- ===== src/Url/Examples.antt =====
-- URLs to parse.
use trn_actions.Prelude.{◌≡◌, refl, true, none, some, [], ◌∷◌, ◌++◌, arith, codes}
use trn_actions.Int.{pos}
use trn_actions.Url.RoundTrip.{port_text, parts, print_url, parse_url-print_url, parse_url-literal}
use trn_actions.Url.{parse_url, Url}

abbrev no_url : Url
no_url = record { url_port = pos 0; url_type = []; url_host = some []; url_path = [] }

with_port :
    parse_url (some (codes "http://news.org:8080/a/b")) no_url
    ≡ some (
      true,
      record {
        url_port = pos 8080;
        url_type = codes "http";
        url_host = some (codes "news.org");
        url_path = codes "/a/b";
      },
    )
unfolding parse_url
with_port = refl

parse_url-print_url_example :
    parse_url (some (print_url (codes "http") (codes "news.org") (some 8080) (codes "a/b"))) no_url
    ≡ some (true, parts (codes "http") (codes "news.org") (some 8080) (codes "/a/b"))
parse_url-print_url_example =
    parse_url-print_url (codes "http") (codes "news.org") (codes "a/b") (some 8080) no_url
      (ground arith) (ground arith) (omega arith) (omega arith) (omega arith) (omega arith)
      (omega arith)

parse_url-literal_example :
    parse_url
      (some (
        codes "http"
        ++ b':'
          ∷ b'/'
          ∷ b'/'
          ∷ b'['
          ∷ (codes "::1" ++ b']' ∷ (port_text none ++ b'/' ∷ codes "x"))))
      no_url
    ≡ some (true, parts (codes "http") (b'[' ∷ codes "::1") none (codes "/x"))
parse_url-literal_example =
    parse_url-literal (codes "http") (codes "::1") (codes "x") none no_url (ground arith)
      (ground arith) tt (omega arith) (omega arith) (omega arith)
