-- ===== src/Web/DeviceKeys/Tests.antt =====
-- Concrete loads of device keys, and the theorems on them at concrete inputs.
use messaging_system.Common.{
  ◌≡◌, refl, String, true, false, none, some, List, [], ◌∷◌, empty, trim, ◌⊎◌, is_empty,
}
use messaging_system.Web.DeviceKeys.{
  DeviceKeysAction, invalidate, pending, succeeded_with, device_keys_reducer,
  is_device_public_keys_cache_fresh, ApiResult, refused, listed, fulfilled,
  fetch_device_public_keys, FetchDevicePublicKeysResult,
}
use messaging_system.Web.DeviceKeys.Laws.{
  run_device_keys, run_device_keys-fresh, last_load, is_young, fetch_device_public_keys-fulfilled,
}

abbrev loads : List DeviceKeysAction
loads =
    pending " u "
    ∷ succeeded_with (record { user_id = "u"; items = []; forbidden = false }) 1000
    ∷ invalidate (some "v")
    ∷ []

loaded : is_device_public_keys_cache_fresh (run_device_keys loads empty "u") 120999 ≡ true
unfolding run_device_keys device_keys_reducer is_device_public_keys_cache_fresh
    messaging_system.Common.trim
loaded = refl

expired : is_device_public_keys_cache_fresh (run_device_keys loads empty "u") 121000 ≡ false
unfolding run_device_keys device_keys_reducer is_device_public_keys_cache_fresh
    messaging_system.Common.trim
expired = refl

run_device_keys-fresh_example :
    is_device_public_keys_cache_fresh (run_device_keys loads empty "u") 5000
    ≡ is_young (last_load "u" loads none) 5000
run_device_keys-fresh_example = run_device_keys-fresh "u" loads 5000

-- A directory that refuses everyone.
abbrev refuse_all : String → ApiResult
refuse_all key = refused (some 403) "no"

abbrev hidden : FetchDevicePublicKeysResult
hidden = record { user_id = "u"; items = []; forbidden = true }

refused_fetch : fetch_device_public_keys refuse_all " u " ≡ fulfilled hidden
unfolding fetch_device_public_keys messaging_system.Common.trim
refused_fetch = refl

fetch_device_public_keys-fulfilled_example :
    ("u" ≡ trim " u ")
    × (is_empty "u" ≡ false)
    × (((true ≡ false) × (refuse_all "u" ≡ listed []))
        ⊎ ((true ≡ true)
            × (hidden.items ≡ [])
            × ((message : String) × (refuse_all "u" ≡ refused (some 403) message))))
fetch_device_public_keys-fulfilled_example =
    fetch_device_public_keys-fulfilled refuse_all " u " hidden refused_fetch
