-- ===== src/Http/Routes/History.antt =====
-- What a request to a route of the router (internal/httpserver/router.go) does to the tables.
use shelf_auth.Prelude.{
  none, some, String_eq, ℕ_eq, refl, Bool, if◌then◌else◌, ◌≡◌, true, String, false, Option,
}
use shelf_auth.Platform.{Platform}
use shelf_auth.Errors.{Result, ok, err}
use shelf_auth.Http.Routes.{
  Server, Visit, handle, Endpoint, Method, health, ready, key_set_page, register_page, login_page,
  logout_page, refresh_page, me_page,
}
use shelf_auth.Http.{Handler, reply, serve, Request, no_body}
use shelf_auth.Exec.Preserves.{Preorder, Preserves}
use shelf_auth.Exec.{Exec, World, Db}
use shelf_auth.Service.Config.{AuthService}
use shelf_auth.Repo.History.{Follows, Follows-Preorder}
use shelf_auth.Http.Cookies.{CookieCfg, cleared_cookie}
use shelf_auth.Tokens.{SignerLaws}
use shelf_auth.Http.Register.{register_reply, register_handler, RegisterRequest}
use shelf_auth.Http.Login.{login_reply, login_handler, LoginRequest}
use shelf_auth.Http.Refresh.{refresh_reply, exchange, exchange_cookie, refresh_handler}
use shelf_auth.Http.Session.{logout_handler, cookie_value}
use shelf_auth.Service.History.{
  logout-Preserves, register-Preserves, login-Preserves, refresh-Preserves,
}
use shelf_auth.Http.Routes.Safe.{me_route-keeps_db}
use shelf_auth.Service.Logout.{logout}
use shelf_auth.Security.Password.Hashing.{BcryptLaws}
use shelf_auth.Service.Register.{register}
use shelf_auth.Service.Calls.Soundness.{KeepsSound}
use shelf_auth.Service.Login.{login}
use shelf_auth.Service.Calls.Sound.{
  register-KeepsSound, login-KeepsSound, refresh-KeepsSound, logout-KeepsSound,
}
use shelf_auth.Service.Refresh.{refresh}

-- A reply that is made from a result.
abbrev KeepsDb {ℓ} : {A : Type ℓ} → (Result A → Handler) → Type ℓ
KeepsDb k = (r : Result _) (w : World) → (k r w).1.db ≡ w.db

-- What the handlers need of a relation between the tables before and after, to keep to it.
pub record Conserves (p : Platform) (s : AuthService) (R : Db → Db → Type 0) : Type 0 where
  pub order : Preorder R
  pub registers :
      (email password : String) (verify : Bool) → Preserves R (register p s email password verify)
  pub logins :
      (email password device_id ip user_agent : String)
      → Preserves R (login p s email password device_id ip user_agent)
  pub refreshes :
      (raw device_id ip user_agent : String) → Preserves R (refresh p s raw device_id ip user_agent)
  pub logs_out : (raw : String) → Preserves R (logout p raw)

module _ (R : Db → Db → Type 0) where
  abbrev HandlerKeeps : Handler → Type 0
  HandlerKeeps h = (w : World) → R w.db (h w).1.db

  serve-Keeps {ℓ} :
      {A : Type ℓ} (m : Exec A) (k : Result A → Handler)
      → Preserves R m
      → KeepsDb k
      → HandlerKeeps (serve m k)
  serve-Keeps m k f keeps w = rw (keeps (m w).0 (m w).1) (f.at w)

  if-Keeps :
      (b : Bool) (h k : Handler)
      → HandlerKeeps h
      → HandlerKeeps k
      → HandlerKeeps (if b then h else k)
  if-Keeps true h k f g = f
  if-Keeps false h k f g = g

  module _ (p : Platform) (s : AuthService) (cfg : CookieCfg) where
    register_reply-KeepsDb : KeepsDb register_reply
    unfolding register_reply
    register_reply-KeepsDb (ok r) w = refl
    register_reply-KeepsDb (err e) w = refl

    login_reply-KeepsDb : KeepsDb (login_reply p s cfg)
    unfolding login_reply
    login_reply-KeepsDb (ok r) w = refl
    login_reply-KeepsDb (err e) w = refl

    refresh_reply-KeepsDb : KeepsDb (refresh_reply p s cfg)
    unfolding refresh_reply
    refresh_reply-KeepsDb (ok r) w = refl
    refresh_reply-KeepsDb (err e) w = refl

    module _ (c : Conserves p s R) where
      register_handler-Keeps :
          (body : Option RegisterRequest) → HandlerKeeps (register_handler p s body)
      unfolding register_handler
      register_handler-Keeps none = λ w. c.order.reflexive w.db
      register_handler-Keeps (some req) =
          if-Keeps _ _ _ (λ w. c.order.reflexive w.db)
            (serve-Keeps _ register_reply (c.registers _ _ _) register_reply-KeepsDb)

      login_handler-Keeps :
          (body : Option LoginRequest) (r : Request) → HandlerKeeps (login_handler p s cfg body r)
      unfolding login_handler
      login_handler-Keeps none r = λ w. c.order.reflexive w.db
      login_handler-Keeps (some req) r =
          if-Keeps _ _ _ (λ w. c.order.reflexive w.db)
            (serve-Keeps _ (login_reply p s cfg) (c.logins _ _ _ _ _) login_reply-KeepsDb)

      exchange_cookie-Keeps :
          (r : Request) (cookie : Option String) → HandlerKeeps (exchange_cookie p s cfg r cookie)
      unfolding exchange
      exchange_cookie-Keeps r none = λ w. c.order.reflexive w.db
      exchange_cookie-Keeps r (some raw) =
          if-Keeps _ _ _ (λ w. c.order.reflexive w.db)
            (serve-Keeps _ (refresh_reply p s cfg) (c.refreshes _ _ _ _) refresh_reply-KeepsDb)

      logout_handler-Keeps : (r : Request) → HandlerKeeps (logout_handler p cfg r)
      unfolding logout_handler
      logout_handler-Keeps r =
          serve-Keeps (logout p (cookie_value r.refresh_cookie))
            (λ result.
              reply (record { status = 204; body = no_body; cookie = some (cleared_cookie cfg) }))
            (c.logs_out _) (λ result w. refl)

module _ (p : Platform) (srv : Server) (R : Db → Db → Type 0) (c : Conserves p srv.service R)
    (keeps : (t : String) (w : World) → (srv.verifier.verify_access t w).1.db ≡ w.db) where
  pub handle-Keeps :
      (e : Endpoint) (m : Method) (v : Visit) (w : World) → R w.db (handle p srv e m v w).1.db
  unfolding handle refresh_handler
  handle-Keeps health m v w = c.order.reflexive w.db
  handle-Keeps ready m v w = c.order.reflexive w.db
  handle-Keeps key_set_page m v w = c.order.reflexive w.db
  handle-Keeps register_page m v w =
      register_handler-Keeps R p srv.service srv.cookies c v.registration w
  handle-Keeps login_page m v w =
      login_handler-Keeps R p srv.service srv.cookies c v.credentials v.request w
  handle-Keeps logout_page m v w = logout_handler-Keeps R p srv.service srv.cookies c v.request w
  handle-Keeps refresh_page m v w =
      exchange_cookie-Keeps R p srv.service srv.cookies c v.request v.request.refresh_cookie w
  handle-Keeps me_page m v w =
      rw (me_route-keeps_db p srv keeps v.request w) (c.order.reflexive w.db)

pub Follows-Conserves :
    (p : Platform) (s : AuthService) → SignerLaws s.signer → Conserves p s (Follows p)
Follows-Conserves p s laws = record {
  order = Follows-Preorder p;
  registers = λ email password verify. register-Preserves p s laws email password verify;
  logins = λ email password device_id ip user_agent.
      login-Preserves p s laws email password device_id ip user_agent;
  refreshes = λ raw device_id ip user_agent. refresh-Preserves p s laws raw device_id ip user_agent;
  logs_out = λ raw. logout-Preserves p s laws raw;
}

pub KeepsSound-Conserves :
    (p : Platform) (s : AuthService)
    → SignerLaws s.signer
    → BcryptLaws p
    → Conserves p s (KeepsSound p s.refresh_ttl)
KeepsSound-Conserves p s laws bcrypt = record {
  order = record { reflexive = λ a v. v; transitive = λ f g v. g (f v) };
  registers = λ email password verify. record {
    at = register-KeepsSound p s laws bcrypt email password verify;
  };
  logins = λ email password device_id ip user_agent. record {
    at = login-KeepsSound p s laws email password device_id ip user_agent;
  };
  refreshes = λ raw device_id ip user_agent. record {
    at = refresh-KeepsSound p s laws raw device_id ip user_agent;
  };
  logs_out = λ raw. record { at = logout-KeepsSound p s laws raw };
}
