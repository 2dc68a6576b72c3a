-- ===== src/Http/Auth/Laws.antt =====
-- What AuthMiddleware (internal/httpserver/middleware/auth.go) lets through.
use shelf_auth.Prelude.{
  String_eq, ℕ_eq, inl, inr, String, is_empty, ◌≡◌, false, ◌⊎◌, trim_prefix, Bool-cases, arith,
}
use shelf_auth.Platform.{Platform, EntityId}
use shelf_auth.Http.Auth.{auth_middleware}
use shelf_auth.Tokens.{TokenVerifier, AccessClaims}
use shelf_auth.Http.{Handler, Request}
use shelf_auth.Exec.{World}
use shelf_auth.Errors.{ok, Result-cases}
use shelf_auth.Domain.{parse_id}

-- A request that was let through: its header is not empty, its token was accepted, and the user id of
-- the token parses.
pub record IsAdmitted (p : Platform) (verifier : TokenVerifier) (next_handler : EntityId → Handler)
    (r : Request) (w : World) : Type 0 where
  pub claims : AccessClaims
  pub id : EntityId
  pub given : is_empty (r.header "Authorization") ≡ false
  pub accepted :
      (verifier.verify_access (trim_prefix "Bearer " (r.header "Authorization")) w).0 ≡ ok claims
  pub parsed : parse_id p claims.user_id ≡ ok id
  pub answered :
      auth_middleware p verifier next_handler r w
      ≡ next_handler id
          (verifier.verify_access (trim_prefix "Bearer " (r.header "Authorization")) w).1

-- Every request is either answered with 401 by the middleware, which leaves the database as the
-- verifier does, or its header is not empty, the verifier accepts the header's token, the user id of the
-- token parses, and the answer is that of the handler behind for that id.
pub auth_middleware-cases :
    (p : Platform) (verifier : TokenVerifier) (next_handler : EntityId → Handler) (r : Request)
    (w : World)
    → ((v : String) → (verifier.verify_access v w).1.db ≡ w.db)
    → (((auth_middleware p verifier next_handler r w).0.status ≡ 401)
        × ((auth_middleware p verifier next_handler r w).1.db ≡ w.db))
      ⊎ IsAdmitted p verifier next_handler r w
unfolding auth_middleware
auth_middleware-cases p verifier next_handler r w keeps =
    elim (Bool-cases (is_empty (r.header "Authorization"))) [
      | inl missing ↦ inl (ground arith, ground arith)
      | inr given ↦
          let token = trim_prefix "Bearer " (r.header "Authorization") in
          elim (Result-cases (verifier.verify_access token w).0) [
            | inl (e, refused) ↦ inl (ground arith, ground (arith, keeps token))
            | inr (claims, accepted) ↦ elim (Result-cases (parse_id p claims.user_id)) [
              | inl (e, refused) ↦ inl (ground arith, ground (arith, keeps token))
              | inr (id, parsed) ↦ inr record {
                claims = claims;
                id = id;
                given = given;
                accepted = accepted;
                parsed = parsed;
                answered = ground arith;
              }
            ]
          ]
    ]
