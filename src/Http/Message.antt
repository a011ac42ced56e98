-- ===== src/Http/Message.antt =====
-- include/HTTP/HTTP.h. A header map is a list of entries with text keys.
use echo_net.Base.{ℕ, List, [], ◌∷◌, Option, some, none, if◌then◌else◌, Text, same_text}

pub data Method : Type 0 where
  get post unknown_method : Method

pub data Version : Type 0 where
  http10 http11 unknown_version : Version

unfoldable pub find_header : Text → List (Text × Text) → Option Text
find_header k [] = none
find_header k ((j, v) ∷ m) = if same_text j k then some v else find_header k m

unfoldable pub put_header : Text → Text → List (Text × Text) → List (Text × Text)
put_header k v [] = (k, v) ∷ []
put_header k v ((j, w) ∷ m) = if same_text j k then (k, v) ∷ m else (j, w) ∷ put_header k v m

pub record HttpRequest : Type 0 where
  pub method : Method
  pub path : Text
  pub version : Version
  pub header : List (Text × Text)
  pub body : Text

-- `HttpRequest()`
unfoldable pub new_request : HttpRequest
new_request = record {
  method = unknown_method;
  path = [];
  version = unknown_version;
  header = [];
  body = [];
}

pub record HttpResponse : Type 0 where
  pub version : Version
  pub status_code : ℕ
  pub status_msg : Text
  pub header : List (Text × Text)
  pub body : Text
