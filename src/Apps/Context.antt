-- ===== src/Apps/Context.antt =====
-- examples/context.rs: an account that is attached when a user logs in, and a number for each
-- session, which the application reads back.
pub mod Greeting
pub mod Login
use shenron.Common.{
  ℕ, ◌+◌, ◌%◌, ◌^◌, Option, none, some, List, [], ◌∷◌, ◌++◌, Text, text, text_beq, if◌then◌else◌,
}
use shenron.Error.{Error, Result, ok}
use shenron.Exit.{Exit, unit_exit, result_exit, exit_exit}
use shenron.Format.{decimal}
use shenron.Auth.{AuthOutcome, accept, attach}
use shenron.Session.{Session}
use shenron.Session.Attached
use shenron.Task.{Task, Handler, Frame, pure, erase, ◌>>◌}
use shenron.Middleware.{Middleware, terminal}
use shenron.Server.Builder.{Setting, bind, pubkey_auth, adds_middleware}
use shenron.Apps.Saying.{crlf, says}

pub record Account : Type 0 where
  pub id : ℕ
  pub role : Text

-- The values that this program attaches, and the `TypeId` of each of their types.
pub data Attachment : Type 0 where
  account : Account → Attachment
  request : Text → Attachment

abbrev pub account_type : ℕ
account_type = 0

abbrev pub request_type : ℕ
request_type = 1

abbrev pub as_account : Option Attachment → Option Account
as_account (some (account a)) = some a
as_account (some (request r)) = none
as_account none = none

abbrev pub as_request : Option Attachment → Option Text
as_request (some (account a)) = none
as_request (some (request r)) = some r
as_request none = none

-- `format!("req-{n}")`
unfoldable pub numbered : ℕ → Text
numbered n = text "req-" ++ decimal n

unfoldable pub account_line : Option Account → Text
account_line none = text "No account attached" ++ crlf
account_line (some a) =
    text "Hello account #" ++ (decimal a.id ++ (text " (" ++ (a.role ++ (text ")" ++ crlf))))

unfoldable pub request_line : Text → Text
request_line r = text "Request id: " ++ (r ++ crlf)

-- The role that the handler of `main` derives from the name of the user.
unfoldable pub role_of : Text → Text
role_of user = if text_beq user (text "admin") then text "admin" else text "user"

-- The handler of `main`.
unfoldable pub accepts : {P : Type 0} → Text → P → AuthOutcome Attachment
accepts user key = attach account_type (account (record { id = 7; role = role_of user })) accept

module _ {P : Type 0} where
  -- `request_id`, with the number that `fetch_add` gave.
  unfoldable pub tagged : ℕ → Handler P Attachment → Handler P Attachment
  tagged n next f =
      next (record f { session = Attached.insert request_type (request (numbered n)) f.session })

  -- `fetch_add` on an `AtomicU64`, and the middleware for the session that did it.
  pub request_id : ℕ → ℕ × Middleware P Attachment
  request_id requests = ((requests + 1) % 2 ^ 64, λ next. erase (tagged requests next))

  abbrev pub says_request : Option Text → Task P Attachment (Result Error (Unit {0}))
  says_request none = pure (ok tt)
  says_request (some r) = says (request_line r)

  abbrev pub account_of : Session P Attachment → Option Account
  account_of s = as_account (Attached.get account_type s)

  abbrev pub request_of : Session P Attachment → Option Text
  request_of s = as_request (Attached.get request_type s)

  unfoldable pub app : Task P Attachment (Result Error (Unit {0}))
  app f =
      (says (account_line (account_of f.session))
          >> says_request (request_of f.session)
          >> pure (ok tt))
        f

  -- The calls of `main`, for a session that gets this number.
  unfoldable pub calls : {K C : Type 0} → ℕ → List (Setting K P C Attachment)
  calls n =
      bind (text "0.0.0.0:2222")
      ∷ pubkey_auth accepts
      ∷ adds_middleware (request_id n).1
      ∷ adds_middleware (terminal app)
      ∷ []
