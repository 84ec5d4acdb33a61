-- ===== src/Outbound/Tests.antt =====
-- outbound.py at concrete URLs and answers.
use mini_siem.Base.{
  ◌≡◌, refl, true, false, Option, none, some, List, [], ◌∷◌, nat_eq, string_eq, codes, text_eq,
}
use mini_siem.Outbound.{
  Origin, Address, SplitUrl, origin, allowed_origins, resolve_destination, read_response, https, ok,
  generic, too_long, failed,
}
use mini_siem.Outbound.Policy.{IsSafe, Given, resolve_destination-IsSafe}
use mini_siem.Outbound.Reading.{AsDeclared, read_response-AsDeclared}

abbrev feed : SplitUrl
feed = record {
  scheme = some https;
  hostname = some (codes "feed.example.");
  has_credentials = false;
  has_fragment = false;
  port = none;
  path = codes "/x";
  query = [];
  has_unsafe = false;
}

abbrev feed_origin : Origin
feed_origin = record { scheme = https; host = codes "feed.example"; port = 443 }

abbrev public_address : Address
public_address = record {
  answer = codes "203.0.113.9";
  text = codes "203.0.113.9";
  is_loopback = false;
  is_global = true;
  is_link_local = false;
  is_multicast = false;
  is_unspecified = false;
  is_reserved = false;
  is_tunnelled = false;
}

abbrev answers : Origin → Option (List Address)
answers _ = some (public_address ∷ public_address ∷ [])

feed_resolved :
    resolve_destination generic false feed [] answers ≡ ok (feed_origin, public_address ∷ [])
unfolding resolve_destination
feed_resolved = refl

feed_parsed : origin feed ≡ ok feed_origin
unfolding origin
feed_parsed = refl

none_allowed : allowed_origins [] ≡ ok []
unfolding allowed_origins
none_allowed = refl

resolve_destination-IsSafe_example :
    Given
      (λ o' addresses. (o' ≡ feed_origin) × IsSafe false false o' addresses)
      (resolve_destination generic false feed [] answers)
resolve_destination-IsSafe_example =
    resolve_destination-IsSafe generic false feed feed_origin [] [] answers feed_parsed none_allowed

read_response-AsDeclared_example :
    AsDeclared 4 (some 3) (read_response 4 (some 3) (codes "ab" ∷ codes "c" ∷ [] ∷ []))
read_response-AsDeclared_example =
    read_response-AsDeclared 4 (some 3) (codes "ab" ∷ codes "c" ∷ [] ∷ [])

over_limit : read_response 2 none (codes "ab" ∷ codes "c" ∷ []) ≡ failed too_long
unfolding read_response
over_limit = refl
