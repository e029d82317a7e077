-- ===== src/Web/DeviceKeys.antt =====
-- The cache of device public keys,
-- apps/web-client/src/modules/crypto/stores/devicePublicKeysSlice.ts. The clock is an argument, in
-- milliseconds, and the age test `now - cachedAtMs < TTL` is written as a sum. The API call of the
-- thunk is a parameter; what it throws is given as `parseApiError` returns it.
pub mod Laws
mod Tests
use messaging_system.Common.{
  ℕ, ◌+◌, String, Bool, true, false, Option, none, some, List, [], ◌∷◌, Dict, empty, put, remove,
  ltb, trim, is_empty, get_or, if◌then◌else◌, nat_eq, ◌&&◌,
}

abbrev pub device_public_keys_cache_ttl_ms : ℕ
device_public_keys_cache_ttl_ms = 120000

pub record HybridDeviceRow : Type 0 where
  pub device_id : String
  pub public_key : String

pub data LoadStatus : Type 0 where
  idle loading succeeded failed : LoadStatus

pub record DevicePublicKeysEntry : Type 0 where
  pub status : LoadStatus
  pub items : List HybridDeviceRow
  pub forbidden : Bool
  pub error : Option String
  pub cached_at_ms : Option ℕ

abbrev pub DevicePublicKeysState : Type 0
DevicePublicKeysState = Dict DevicePublicKeysEntry

abbrev empty_entry : DevicePublicKeysEntry
empty_entry = record {
  status = idle;
  items = [];
  forbidden = false;
  error = none;
  cached_at_ms = none;
}

is_succeeded : LoadStatus → Bool
is_succeeded succeeded = true
is_succeeded _ = false

unfoldable pub is_device_public_keys_cache_fresh : Option DevicePublicKeysEntry → ℕ → Bool
unfolding is_succeeded
is_device_public_keys_cache_fresh none now = false
is_device_public_keys_cache_fresh (some entry) now =
    is_succeeded entry.status && elim entry.cached_at_ms [
      | none ↦ false
      | some cached ↦ ltb now (cached + device_public_keys_cache_ttl_ms)
    ]

pub record FetchDevicePublicKeysResult : Type 0 where
  pub user_id : String
  pub items : List HybridDeviceRow
  pub forbidden : Bool

-- What the API call gives: its rows, or the status and message of its error.
pub data ApiResult : Type 0 where
  listed : List HybridDeviceRow → ApiResult
  refused : Option ℕ → String → ApiResult

-- A thunk is fulfilled with a result, or rejected with a message.
pub data Outcome : Type 0 where
  fulfilled : FetchDevicePublicKeysResult → Outcome
  rejected : String → Outcome

is_status : ℕ → Option ℕ → Bool
is_status n none = false
is_status n (some m) = nat_eq m n

settle_fetch : String → ApiResult → Outcome
unfolding is_status
settle_fetch key (listed items) =
    fulfilled (record { user_id = key; items = items; forbidden = false })
settle_fetch key (refused http_status message) =
    if is_status 403 http_status
    then fulfilled (record { user_id = key; items = []; forbidden = true })
    else rejected (
        if is_empty message
        then if is_status 404 http_status
          then "User or device keys were not found."
          else "Failed to load device public keys."
        else message)

-- The thunk's payload creator, over the API call.
unfoldable pub fetch_device_public_keys : (String → ApiResult) → String → Outcome
unfolding settle_fetch
fetch_device_public_keys list_user_device_public_keys user_id =
    let key = trim user_id in
    if is_empty key
    then rejected "userId is required"
    else settle_fetch key (list_user_device_public_keys key)

unfoldable pub invalidate_device_public_keys :
    Option String → DevicePublicKeysState → DevicePublicKeysState
invalidate_device_public_keys none state = empty
invalidate_device_public_keys (some user_id) state =
    let id = trim user_id in if is_empty id then empty else remove id state

-- `emptyEntry({ status: 'loading', items: prev?.items ?? [], forbidden: prev?.forbidden ?? false })`
loading_entry : Option DevicePublicKeysEntry → DevicePublicKeysEntry
loading_entry none = record empty_entry { status = loading }
loading_entry (some prev) = record empty_entry {
  status = loading;
  items = prev.items;
  forbidden = prev.forbidden;
}

unfoldable pub fetch_pending : String → DevicePublicKeysState → DevicePublicKeysState
unfolding loading_entry
fetch_pending arg state = let key = trim arg in put key (loading_entry (state key)) state

unfoldable pub fetch_fulfilled :
    FetchDevicePublicKeysResult → ℕ → DevicePublicKeysState → DevicePublicKeysState
fetch_fulfilled payload now state =
    put payload.user_id
      (record {
        status = succeeded;
        items = payload.items;
        forbidden = payload.forbidden;
        error = none;
        cached_at_ms = some now;
      })
      state

unfoldable pub fetch_rejected :
    String → Option String → Option String → DevicePublicKeysState → DevicePublicKeysState
fetch_rejected arg payload error_message state =
    let msg = get_or payload (get_or error_message "Failed to load device public keys") in
    put (trim arg) (record empty_entry { status = failed; error = some msg }) state

pub data DeviceKeysAction : Type 0 where
  invalidate : Option String → DeviceKeysAction
  logout register_device_fulfilled : DeviceKeysAction
  pending : String → DeviceKeysAction
  succeeded_with : FetchDevicePublicKeysResult → ℕ → DeviceKeysAction
  failed_with : String → Option String → Option String → DeviceKeysAction

unfoldable pub device_keys_reducer :
    DeviceKeysAction → DevicePublicKeysState → DevicePublicKeysState
unfolding invalidate_device_public_keys fetch_pending fetch_fulfilled fetch_rejected
device_keys_reducer (invalidate user_id) s = invalidate_device_public_keys user_id s
device_keys_reducer logout s = empty
device_keys_reducer register_device_fulfilled s = remove "me" s
device_keys_reducer (pending arg) s = fetch_pending arg s
device_keys_reducer (succeeded_with payload now) s = fetch_fulfilled payload now s
device_keys_reducer (failed_with arg payload message) s = fetch_rejected arg payload message s

-- `selectDevicePublicKeysEntry`
abbrev pub select_device_public_keys_entry :
    DevicePublicKeysState → String → Option DevicePublicKeysEntry
select_device_public_keys_entry state user_id = state (trim user_id)
