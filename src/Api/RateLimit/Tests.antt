-- ===== src/Api/RateLimit/Tests.antt =====
-- Tests of the limiters, and the theorems at concrete traces.
use messaging_system.Common.{
  ◌≡◌, refl, ℕ, ◌≤◌, min, String, true, false, some, List, [], ◌∷◌, arith, empty,
}
use messaging_system.Api.RateLimit.{
  rate_limit_exceeded, Check, SendCall, SendLimits, admitted, admitted_sends, run_checks,
  is_message_send_rate_limited, is_limited, fixed_window_increment, count,
}
use messaging_system.Api.RateLimit.Budget.{admitted_budget, run_checks-unblocks}
use messaging_system.Api.RateLimit.Memory.{memory, memory-IsLawful}
use messaging_system.Api.RateLimit.PerUser.{admitted_sends_bound}

abbrev check_at : String → ℕ → Check
check_at k t = record { key = k; window_sec = 60; max_calls = 2; at = t }

abbrev later_checks : List Check
later_checks = check_at "a" 500 ∷ check_at "b" 900 ∷ check_at "a" 60999 ∷ []

admitted_budget_example : admitted memory "a" (check_at "a" 1000 ∷ later_checks) empty ≡ min 3 2
unfolding count
admitted_budget_example =
    admitted_budget memory memory-IsLawful "a" 60 2 1000 later_checks empty (λ j. tt) refl
      (
        (λ e. (refl, refl, omega arith)),
        ((λ e. (refl, refl, omega arith)), ((λ e. (refl, refl, omega arith)), tt)),
      )

run_checks-unblocks_example :
    (rate_limit_exceeded memory "a" 60 2 120999 (run_checks memory later_checks empty)).0 ≡ false
run_checks-unblocks_example =
    run_checks-unblocks memory memory-IsLawful "a" 60 2 120999 120999 later_checks empty (λ j. tt)
      (omega arith, (omega arith, (omega arith, tt))) (omega arith) (omega arith)

abbrev send_limits : SendLimits
send_limits = record {
  limits = record { window_sec = 60; max_per_user = 3; max_per_ip = 9; max_per_socket = 9 };
  guest_max_per_user = 1;
}

abbrev send_of : String → ℕ → SendCall
send_of u t = record {
  is_guest = true;
  caller = record { user_id = u; ip = "192.0.2.1"; socket_id = some "s1" };
  at = t;
}

abbrev sends : List SendCall
sends = send_of "guest" 2000 ∷ send_of "other" 2500 ∷ send_of "guest" 3000 ∷ []

admitted_sends_bound_example :
    admitted_sends memory send_limits true "guest" (send_of "guest" 1000 ∷ sends) empty ≤ 1
admitted_sends_bound_example =
    admitted_sends_bound memory memory-IsLawful send_limits true "guest" "192.0.2.1" (some "s1")
      1000 sends empty (λ j. tt) refl (omega arith, (omega arith, (omega arith, tt)))

guest_sends_once :
    admitted_sends memory send_limits true "guest" (send_of "guest" 1000 ∷ sends) empty ≡ 1
unfolding admitted_sends is_message_send_rate_limited is_limited rate_limit_exceeded
    fixed_window_increment
guest_sends_once = refl
