-- ===== src/Url/Tests.antt =====
-- Addresses.
use muld.Prelude.{◌≡◌, refl, some, none, []}
use muld.Prelude.Bytes.{codes}
use muld.Types.{Url}
use muld.Url.{parse_url, url_string}
use muld.Url.RoundTrip.{IsPlain, parse_url-url_string}

abbrev archive : Url
archive = record {
  scheme = codes "https";
  host = codes "h.org";
  port = codes "443";
  path = codes "/a?b:c";
}

no_text : parse_url [] ≡ none
unfolding parse_url
no_text = refl

archive-IsPlain : IsPlain archive
archive-IsPlain = record {
  scheme_some = refl;
  scheme_colon = (refl, (refl, (refl, (refl, (refl, tt)))));
  host_some = refl;
  host_colon = (refl, (refl, (refl, (refl, (refl, tt)))));
  host_slash = (refl, (refl, (refl, (refl, (refl, tt)))));
  host_query = (refl, (refl, (refl, (refl, (refl, tt)))));
  host_fragment = (refl, (refl, (refl, (refl, (refl, tt)))));
  port_some = refl;
  port_slash = (refl, (refl, (refl, tt)));
  port_query = (refl, (refl, (refl, tt)));
  port_fragment = (refl, (refl, (refl, tt)));
  path_root = refl;
}

parse_url-url_string_example : parse_url (url_string archive) ≡ some archive
parse_url-url_string_example = parse_url-url_string archive archive-IsPlain
