-- ===== src/Client.antt =====
-- crates/polybase/src/client.rs: the configuration and the addresses. A request and its reply are
-- what the sources give to and take from `reqwest`; sending one is a parameter of the model.
use Prim.Native.String.{◌++◌}
use polykit_rust.Prelude.{
  ℕ, ◌/◌, ◌%◌, String, ◌==◌, Bool, ◌&&◌, Option, some, none, List, leb, ltb, if◌then◌else◌,
}
use polykit_rust.Prelude.Text.{trim, trim_end_if, trim_start_if, is_char, digit}
use polykit_rust.Prelude.Result.{Result, ok, err}
use polykit_rust.Errors.{PolyError, not_configured}
use polykit_rust.Json.{Value}

pub record ClientConfig : Type 0 where
  pub supabase_url : String
  pub supabase_anon_key : String
  pub encryption_secret : Option String
  pub storage_bucket : Option String

-- `supabase_url` without the slashes at its end
abbrev pub base_url : ClientConfig → String
unfolding trim_end_if
base_url config = trim_end_if (is_char b'/') config.supabase_url

-- the checks that `Client::new` makes
unfoldable pub validate : ClientConfig → Result PolyError (Unit {0})
unfolding trim
validate config =
    if trim config.supabase_url == ""
    then err (not_configured "supabase_url is empty")
    else if trim config.supabase_anon_key == ""
    then err (not_configured "supabase_anon_key is empty")
    else ok tt

abbrev pub storage_bucket_or_default : ClientConfig → String
storage_bucket_or_default config = elim config.storage_bucket [ some b ↦ b | none ↦ "attachments" ]

unfoldable pub rest_url : ClientConfig → String → String
unfolding trim_end_if
rest_url config table = base_url config ++ ("/rest/v1/" ++ table)

unfoldable pub functions_url : ClientConfig → String → String
unfolding trim_end_if
functions_url config function = base_url config ++ ("/functions/v1/" ++ function)

unfoldable pub storage_object_url : ClientConfig → String → String → String
unfolding trim_end_if trim_start_if
storage_object_url config bucket path =
    base_url config
    ++ ("/storage/v1/object/" ++ (bucket ++ ("/" ++ trim_start_if (is_char b'/') path)))

unfoldable pub auth_url : ClientConfig → String → String
unfolding trim_end_if trim_start_if
auth_url config path = base_url config ++ ("/auth/v1/" ++ trim_start_if (is_char b'/') path)

pub data Method : Type 0 where
  get post patch : Method

pub record Request : Type 0 where
  pub method : Method
  pub url : String
  pub headers : List (String × String)
  pub query : List (String × String)
  pub json : Value

-- `err` of a body is the failure to read it.
pub record Response : Type 0 where
  pub status : ℕ  -- StatusCode, 100 to 999
  pub body : Result String String

-- What a request gets: a reply, or the failure of its transport.
abbrev pub Send : Type 0
Send = Request → Result String Response

abbrev pub is_success : ℕ → Bool
is_success status = leb 200 status && ltb status 300

abbrev pub is_server_error : ℕ → Bool
is_server_error status = leb 500 status && ltb status 600

-- `unwrap_or_default` of a body
abbrev pub text_or_default : Response → String
text_or_default r = elim r.body [ ok text ↦ text | err e ↦ "" ]

-- the three digits of a status
unfoldable pub status_text : ℕ → String
status_text status = digit (status / 100) ++ (digit (status / 10 % 10) ++ digit (status % 10))
