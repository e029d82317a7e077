-- ===== src/Web/DeviceKeys/Laws.antt =====
-- What the cache of device public keys promises: it is fresh for a user exactly when the last action
-- that concerns the user is a successful load that is younger than the time to live.
use messaging_system.Common.{
  ◌≡◌, refl, ◌⊎◌, ℕ, ◌+◌, String, Bool, true, false, Option, none, some, List, [], ◌∷◌, arith,
  empty, ltb, trim, is_empty, if◌then◌else◌, ◌==◌, ◌||◌,
}
use messaging_system.Web.DeviceKeys.{
  DevicePublicKeysEntry, DevicePublicKeysState, DeviceKeysAction, invalidate, logout,
  register_device_fulfilled, pending, succeeded_with, failed_with, device_keys_reducer,
  is_device_public_keys_cache_fresh, device_public_keys_cache_ttl_ms, FetchDevicePublicKeysResult,
  ApiResult, fetch_device_public_keys, fulfilled, listed, refused,
}

unfoldable pub run_device_keys :
    List DeviceKeysAction → DevicePublicKeysState → DevicePublicKeysState
run_device_keys [] s = s
run_device_keys (a ∷ acts) s = run_device_keys acts (device_keys_reducer a s)

-- Whether an action that is no successful load concerns the user.
abbrev drops : String → DeviceKeysAction → Bool
drops user (invalidate none) = true
drops user (invalidate (some id)) = is_empty (trim id) || trim id == user
drops user logout = true
drops user register_device_fulfilled = "me" == user
drops user (pending arg) = trim arg == user
drops user (succeeded_with payload now) = false
drops user (failed_with arg payload message) = trim arg == user

-- The time of the last successful load of the user, if no later action concerns the user.
abbrev step_load : String → DeviceKeysAction → Option ℕ → Option ℕ
step_load user (succeeded_with payload now) last =
    if payload.user_id == user then some now else last
step_load user a last = if drops user a then none else last

abbrev pub last_load : String → List DeviceKeysAction → Option ℕ → Option ℕ
last_load user [] last = last
last_load user (a ∷ acts) last = last_load user acts (step_load user a last)

abbrev pub is_young : Option ℕ → ℕ → Bool
is_young none now = false
is_young (some loaded) now = ltb now (loaded + device_public_keys_cache_ttl_ms)

-- The entry of a user agrees with the time of the last load.
Agrees : Option DevicePublicKeysEntry → Option ℕ → Type 0
Agrees entry last = (now : ℕ) → is_device_public_keys_cache_fresh entry now ≡ is_young last now

reducer-Agrees :
    (user : String) (a : DeviceKeysAction) (s : DevicePublicKeysState) (last : Option ℕ)
    → Agrees (s user) last
    → Agrees (device_keys_reducer a s user) (step_load user a last)
unfolding Agrees device_keys_reducer is_device_public_keys_cache_fresh
reducer-Agrees user (invalidate none) s last h now = refl
reducer-Agrees user (invalidate (some id)) s last h now = ground (arith, h now)
reducer-Agrees user logout s last h now = refl
reducer-Agrees user register_device_fulfilled s last h now = ground (arith, h now)
reducer-Agrees user (pending arg) s last h now = ground (arith, h now)
reducer-Agrees user (succeeded_with payload at) s last h now = ground (arith, h now)
reducer-Agrees user (failed_with arg payload message) s last h now = ground (arith, h now)

run-Agrees :
    (user : String) (acts : List DeviceKeysAction) (s : DevicePublicKeysState) (last : Option ℕ)
    → Agrees (s user) last
    → Agrees (run_device_keys acts s user) (last_load user acts last)
unfolding run_device_keys
run-Agrees user [] s last h = h
run-Agrees user (a ∷ acts) s last h =
    run-Agrees user acts (device_keys_reducer a s) (step_load user a last)
      (reducer-Agrees user a s last h)

-- After any actions from the empty cache, the entry of a user is fresh at a time exactly when the
-- last action that concerns the user is a successful load less than 120 seconds before that time.
pub run_device_keys-fresh :
    (user : String) (acts : List DeviceKeysAction) (now : ℕ)
    → is_device_public_keys_cache_fresh (run_device_keys acts empty user) now
      ≡ is_young (last_load user acts none) now
unfolding Agrees is_device_public_keys_cache_fresh
run_device_keys-fresh user acts now = run-Agrees user acts empty none (λ _. refl) now

-- A fetch that is fulfilled is about the trimmed user id, which is not empty, and is forbidden only
-- with no rows; the API was called at that id, and gave the rows, or refused with status 403.
pub fetch_device_public_keys-fulfilled :
    (list_user_device_public_keys : String → ApiResult) (user_id : String)
    (r : FetchDevicePublicKeysResult)
    → fetch_device_public_keys list_user_device_public_keys user_id ≡ fulfilled r
    → (r.user_id ≡ trim user_id)
      × (is_empty r.user_id ≡ false)
      × (((r.forbidden ≡ false) × (list_user_device_public_keys r.user_id ≡ listed r.items))
          ⊎ ((r.forbidden ≡ true)
              × (r.items ≡ [])
              × ((message : String) × (list_user_device_public_keys r.user_id
                    ≡ refused (some 403) message))))
unfolding fetch_device_public_keys
fetch_device_public_keys-fulfilled api user_id r h = ground arith
