-- ===== src/Submit.antt =====
-- The `try` of a form that sends one request: the message of success, and what a failure shows.
pub mod Laws
use testkit_service.Prelude.{String, Option, none, some, List, [], ◌∷◌}
use testkit_service.Browser.{
  M, pure, ◌>>=◌, ◌>>◌, catch, emit, Effect, sent, toasted, success, error, Failure, http, Request,
}
use testkit_service.Request.{Server, call}

-- `e?.data?.message`
abbrev pub data_message : Failure → Option String
data_message (http _ m _) = m
data_message e = none

abbrev pub report : Option String → M (Unit {0})
report none = pure tt
report (some text) = emit (toasted error text)

-- `try { resp = await …; message.success(…); take(resp) } catch { report }`
unfoldable pub try_send :
    {A P : Type 0}
    → Server A
    → Request
    → (done : A → String) (take : A → P → P) (failed : Failure → Option String) → P
    → M P
try_send server req done take failed page =
    catch
      (do
        response ← call server req
        emit (toasted success (done response))
        pure (take response page))
      (λ e. do report (failed e); pure page)

-- the requests of a history
unfoldable pub requests : List Effect → List Request
requests [] = []
requests (sent r ∷ log) = r ∷ requests log
requests (e ∷ log) = requests log

-- the same outside of a `try`: a failure goes on to the caller
unfoldable pub send_plain :
    {A P : Type 0} → Server A → Request → (done : A → String) (take : A → P → P) → P → M P
send_plain server req done take page = do
  response ← call server req
  emit (toasted success (done response))
  pure (take response page)

-- a `try` that shows nothing of its own when it succeeds
unfoldable pub try_take :
    {A P : Type 0}
    → Server A
    → Request
    → (take : A → P → P) (failed : Failure → Option String) → P
    → M P
try_take server req take failed page =
    catch (do response ← call server req; pure (take response page))
      (λ e. do report (failed e); pure page)
