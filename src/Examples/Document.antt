-- ===== src/Examples/Document.antt =====
-- A parsed file, as the texts that stand at its paths, and what the system does with texts.
use Prim.Native.String.{◌++◌}
use lsd.Common.{ℕ, zero, suc, String, true, Option, none, some, [], ◌∷◌, if◌then◌else◌, str_eq, ok}
use lsd.Common.Int.{pos}
use lsd.OrderedMap.{Map}
use lsd.OrderedMap.Keys.{text_key}
use lsd.Hosts.{Resolver}
use lsd.Json.{Json}
use lsd.Configuration.{Texts}

abbrev digit : ℕ → String
digit zero = "0"
digit (suc n) = "1"

-- One service; and, for the answer of a host, one application with one task.
abbrev texts_at : Map String String
texts_at =
    ("/apps/app/tasks/find/endpoint", "host:5000")
    ∷ ("/apps/app/tasks/find/route", "one/find")
    ∷ ("/apps/app/tasks/find/type", "server+lsd")
    ∷ ("/apps/app/running", "true")
    ∷ ("/list/0/app_name", "app")
    ∷ ("/list/0/hosts_url", "http://hosts")
    ∷ ("/list/0/instance", "one")
    ∷ ("/list/0/name", "search")
    ∷ ("/action", "service")
    ∷ []

abbrev text_at : String → Map String String → Option String
text_at path [] = none
text_at path ((other, text) ∷ m) =
    let rest = text_at path m in if str_eq path other then some text else rest

abbrev present : String → Option String → Option String
present path none = none
present path (some text) = some path

abbrev or_empty : Option String → String
or_empty none = ""
or_empty (some text) = text

abbrev pub a_document : Json
a_document = record {
  Value = String;
  parse = λ text. some "";
  get = λ v name. ok (present (v ++ "/" ++ name) (text_at (v ++ "/" ++ name) texts_at));
  member = λ v name. ok (v ++ "/" ++ name);
  element = λ v i. ok (v ++ "/" ++ digit i);
  is_object = λ v. true;
  size = λ v. 1;
  member_names = λ v. ok (if str_eq v "/apps" then "app" ∷ [] else "find" ∷ []);
  as_string = λ v. ok (or_empty (text_at v texts_at));
  as_bool = λ v. ok true;
  as_int = λ v. ok (pos 1);
  as_uint = λ v. ok 1;
}

abbrev pub some_texts : Texts
some_texts = record {
  tokens = λ separator text. text ∷ [];
  trim = λ text. text;
  port_from = λ text. if str_eq text "5000" then some 5000 else none;
  number_text = digit;
  integer_text = λ n. "0";
}

abbrev pub a_resolver : Resolver
a_resolver = record {
  pton = λ text. if str_eq text "10.0.0.1" then some 1 else none;
  ntop = λ n. "10.0.0.1";
  swap = λ n. n;
  name_of = λ text. "";
}
