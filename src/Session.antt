-- ===== src/Session.antt =====
-- web/src/utils/session.ts: the end of a session.
pub mod Laws
use testkit_service.Browser.{
  M, pure, ◌>>=◌, ◌>>◌, catch, remove_item, navigate, assigned, token_key, user_key,
}
use testkit_service.Choice.{clear_tenant_choice}
use testkit_service.Request.{Server, call}
use testkit_service.Services.{logout}

-- endSession
unfoldable pub end_session : Server (Unit {0}) → M (Unit {0})
end_session server = do
  catch (call server logout) (λ _. pure tt)
  remove_item token_key
  remove_item user_key
  clear_tenant_choice
  navigate assigned "/user/login"
