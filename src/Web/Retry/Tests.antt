-- ===== src/Web/Retry/Tests.antt =====
-- A request that succeeds at the third attempt.
use messaging_system.Common.{
  ◌≡◌, refl, ℕ, suc, ◌≤◌, Bool, true, some, [], ◌∷◌, ltb, if◌then◌else◌, arith,
}
use messaging_system.Web.Retry.{Attempt, returned, thrown, retry_async, retry_from}
use messaging_system.Web.Retry.Laws.{AreRetried, IsLast, doubled, retry_async-IsRun}

abbrev third_time : ℕ → Attempt ℕ ℕ
third_time attempt = if ltb attempt 2 then thrown 503 else returned 200

abbrev always : ℕ → ℕ → Bool
always e attempt = true

retry_async-IsRun_example :
    let r = retry_async third_time always 4 500 in
    (last : ℕ) × (r.calls ≡ suc last)
    × (suc last ≤ 4)
    × (r.outcome ≡ some (third_time last))
    × (r.waits ≡ doubled third_time always 500 0 last)
    × AreRetried third_time always 0 last
    × IsLast third_time always 4 last
retry_async-IsRun_example = retry_async-IsRun third_time always 4 500 (omega arith)

waits_double : (retry_async third_time always 4 500).waits ≡ 500 ∷ 1000 ∷ []
unfolding retry_async retry_from
waits_double = refl
