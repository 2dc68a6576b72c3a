-- ===== src/Service/Interleaving/Race.antt =====
-- Two refreshes with one token (internal/service/refresh.go) at the same time.
use shelf_auth.Prelude.{refl, some, String_eq, String, suc, ◌≡◌, true, ap, ◌∙◌}
use shelf_auth.Service.Interleaving.{refreshing, begin, read_session, finish, refresh_read}
use shelf_auth.Exec.{lift, now, World, pure, next}
use shelf_auth.Platform.{Platform, Time}
use shelf_auth.Service.Config.{AuthService}
use shelf_auth.Service.Refresh.Works.{
  Works, find_session_works, IsReady, rotate_session_works, usable_rotates,
}
use shelf_auth.Tokens.{SignerLaws}
use shelf_auth.Domain.{Session, non_empty, parse_ip}
use shelf_auth.Repo.Sessions.{by_hash}
use shelf_auth.Security.Token.{hash_sha256_hex}
use shelf_auth.Service.Calls.{refresh_call}
use shelf_auth.Service.Refresh.Rotation.{IsUsable}
use shelf_auth.Errors.{is_ok, require, ok, sentinel, missing_refresh}
use shelf_auth.Service.Refresh.{RefreshResult, refresh_found}
use shelf_auth.Exec.Inversion.{bind-of_run}

abbrev pub first_time : Platform → World → Time
first_time p w = p.clock (suc w.tick)

abbrev pub second_time : Platform → World → Time
second_time p w = p.clock (suc (suc (suc w.tick)))

-- The world when both refreshes have read the session, and when the first has gone on.
abbrev pub both_read : World → World
both_read w = record w { tick = suc (suc (suc (suc w.tick))) }

abbrev pub first_done : Platform → AuthService → Session → String → String → String → World → World
first_done p s sess device_id ip user_agent w =
    finish p s (refreshing sess (first_time p w) device_id ip user_agent) (both_read w)

module _ (p : Platform) (s : AuthService) (works : Works p s) where
  begin_works :
      (raw device_id ip user_agent : String) (sess : Session) (w : World)
      → non_empty raw ≡ true
      → by_hash (hash_sha256_hex p raw) w.db.sessions ≡ some sess
      → begin p s (refresh_call raw device_id ip user_agent) w
        ≡ (some (refreshing sess (p.clock (suc w.tick)) device_id ip user_agent), next (next w))
  unfolding begin read_session lift now pure
  begin_works raw device_id ip user_agent sess w given found =
      let searched = find_session_works p s works (hash_sha256_hex p raw) sess w found in
      ap (λ x. (refresh_read p s device_id ip user_agent x.0, x.1))
        (bind-of_run _ _ w w tt (ap (λ b. (require b (sentinel missing_refresh), w)) given)
          ∙ bind-of_run _ _ w (next w) sess searched
          ∙ bind-of_run _ _ (next w) (next (next w)) (p.clock (suc w.tick)) refl)

  module _ (laws : SignerLaws s.signer)
      (raw device_id ip user_agent device_id' ip' user_agent' : String) (sess : Session)
      (w : World) where
    -- Two refresh requests with one token whose session is usable come in before either goes on:
    -- then both succeed, where everything that the program calls works and generated identifiers are
    -- new. The signer is one that leaves the database alone.
    pub both_refreshes_succeed :
        non_empty raw ≡ true
        → by_hash (hash_sha256_hex p raw) w.db.sessions ≡ some sess
        → IsUsable sess (first_time p w)
        → IsUsable sess (second_time p w)
        → is_ok (parse_ip p ip) ≡ true
        → is_ok (parse_ip p ip') ≡ true
        → IsReady p sess.user_id (both_read w)
        → IsReady p sess.user_id (first_done p s sess device_id ip user_agent w)
        → (begin p s (refresh_call raw device_id ip user_agent) w
            ≡ (some (refreshing sess (first_time p w) device_id ip user_agent), next (next w)))
          × (begin p s (refresh_call raw device_id' ip' user_agent') (next (next w)) ≡ (
            some (refreshing sess (second_time p w) device_id' ip' user_agent'),
            (both_read w),
          ))
          × ((r : RefreshResult) × ((refresh_found p s sess
                  (first_time p w)
                  device_id
                  ip
                  user_agent
                  (both_read w)).0
                ≡ ok r))
          × ((r : RefreshResult) × ((refresh_found p s sess
                  (second_time p w)
                  device_id'
                  ip'
                  user_agent'
                  (first_done p s sess device_id ip user_agent w)).0
                ≡ ok r))
    both_refreshes_succeed given found usable usable' address address' ready ready' =
        let (r, done) =
          rotate_session_works p s works laws sess (first_time p w) device_id ip user_agent
            (both_read w) address ready in
        let (r', done') =
          rotate_session_works p s works laws sess (second_time p w) device_id' ip' user_agent'
            (first_done p s sess device_id ip user_agent w) address' ready' in
        (
          begin_works raw device_id ip user_agent sess w given found,
          begin_works raw device_id' ip' user_agent' sess (next (next w)) given found,
          (
            r,
            ap (λ x. x.0)
                  (usable_rotates p s works sess (first_time p w) device_id ip user_agent
                    (both_read w) usable)
                ∙ done,
          ),
          (
            r',
            ap (λ x. x.0)
                  (usable_rotates p s works sess (second_time p w) device_id' ip' user_agent'
                    (first_done p s sess device_id ip user_agent w) usable')
                ∙ done',
          ),
        )
