-- ===== src/Api/Sessions/Memory.antt =====
-- Redis, `jose` and the payloads of refresh tokens in memory: the parameters of sessions at work.
use Prim.Native.Nat.{◌/◌}
use Prim.Native.Char.{Char, code}
use Prim.Native.String.{[], ◌∷◌}
use messaging_system.Common.{
  ◌≡◌, refl, ap, ℕ, zero, suc, ◌+◌, ◌*◌, String, Option, none, some, Dict, put, if◌then◌else◌, ◌==◌,
  leb, nat_eq, wrap, unwrap, unwrap-wrap, trim-wrap, ◌∙◌, is_empty-wrap, arith, eq_iff, eq_refl,
  remove, ◌<◌, Bool-cases, inl, inr,
}
use messaging_system.Api.Sessions.Tokens.{
  Jose, IsLawfulJose, Claims, Payload, payload_of, TokenStore, IsLawfulStore, StoredRefreshPayload,
  Payloads, IsLawfulPayloads,
}

-- A text with the time at which it ends.
pub record Held : Type 0 where
  pub value : String
  pub ends : ℕ

abbrev held_at : ℕ → Option Held → Option String
held_at now none = none
held_at now (some h) = if leb h.ends now then none else some h.value

abbrev pub token_memory : TokenStore
token_memory = record {
  State = Dict {0} Held;
  get = λ k now s. held_at now (s k);
  set = λ k v ttl now s. put k (record { value = v; ends = now + ttl * 1000 }) s;
  del = λ k s. remove k s;
}

pub token_memory-IsLawful : IsLawfulStore token_memory
token_memory-IsLawful = record {
  get-set = λ k v ttl now later s h. ground (arith, eq_refl k);
  get-del = λ k now s. ground (arith, eq_refl k);
  get-del_other = λ j k now s h. ground (arith, eq_iff k j, h);
}

-- A payload in unary, the version before the user.
unfoldable pub print_payload : String → ℕ → String
print_payload user_id zero = "," ∷ user_id
print_payload user_id (suc n) = "x" ∷ print_payload user_id n

next_version : Option StoredRefreshPayload → Option StoredRefreshPayload
next_version none = none
next_version (some p) = some (record p { v = suc p.v })

unfoldable pub read_payload : String → Option StoredRefreshPayload
unfolding next_version
read_payload [] = none
read_payload (c ∷ s) =
    let rest = read_payload s in
    if nat_eq (code c) 44 then some (record { user_id = s; v = 0 }) else next_version rest

read-print :
    (user_id : String) (n : ℕ)
    → read_payload (print_payload user_id n) ≡ some (record { user_id = user_id; v = n })
unfolding read_payload print_payload next_version
read-print user_id zero = refl
read-print user_id (suc n) = ap next_version (read-print user_id n)

abbrev pub plain_payloads : Payloads
plain_payloads = record {
  token_hash = λ raw. raw;
  stringify = λ p. wrap (print_payload p.user_id p.v);
  parse = λ s. read_payload (unwrap s);
}

pub plain_payloads-IsLawful : IsLawfulPayloads plain_payloads
plain_payloads-IsLawful = record {
  parse-stringify =
      λ p. ap read_payload (unwrap-wrap (print_payload p.user_id p.v)) ∙ read-print p.user_id p.v;
  is_empty-stringify = λ p. is_empty-wrap (print_payload p.user_id p.v);
}

-- A text before another: each character behind a mark, and a mark of the end.
pack : String → String → String
pack [] rest = "e" ∷ rest
pack (c ∷ s) rest = "c" ∷ c ∷ pack s rest

and_first : Char → Option (String × String) → Option (String × String)
and_first c none = none
and_first c (some (s, rest)) = some (c ∷ s, rest)

unpack : String → Option (String × String)
unfolding and_first
unpack [] = none
unpack (m ∷ []) = if nat_eq (code m) 101 then some ("", "") else none
unpack (m ∷ c ∷ s) =
    let rest = unpack s in if nat_eq (code m) 101 then some ("", c ∷ s) else and_first c rest

unpack-pack : (s rest : String) → unpack (pack s rest) ≡ some (s, rest)
unfolding unpack pack and_first
unpack-pack [] [] = refl
unpack-pack [] (c ∷ rest) = refl
unpack-pack (c ∷ s) rest = ap (and_first c) (unpack-pack s rest)

pack_option : Option String → String → String
pack_option none rest = "n" ∷ rest
pack_option (some s) rest = "s" ∷ pack s rest

some_first : Option (String × String) → Option (Option String × String)
some_first none = none
some_first (some (s, rest)) = some (some s, rest)

unpack_option : String → Option (Option String × String)
unfolding some_first
unpack_option [] = none
unpack_option (m ∷ s) = if nat_eq (code m) 110 then some (none, s) else some_first (unpack s)

unpack_option-pack_option :
    (o : Option String) (rest : String) → unpack_option (pack_option o rest) ≡ some (o, rest)
unfolding unpack_option pack_option some_first
unpack_option-pack_option none rest = refl
unpack_option-pack_option (some s) rest = ap some_first (unpack-pack s rest)

-- The secret stands for the signature; the end of the life is in unary.
pub print_token : Claims → ℕ → String → String
unfolding pack pack_option
print_token c ends secret = pack secret (
    pack c.sub (
      pack_option c.source_device_id
        (if c.guest then "g" ∷ print_payload "" ends else "r" ∷ print_payload "" ends)))

read_end : ℕ → String → Option String → Option String → Option Payload
read_end now [] sub id = none
read_end now (m ∷ s) sub id = elim (read_payload s) [
  | none ↦ none
  | some p ↦
      if leb p.v now
      then none
      else some (record { sub = sub; guest = nat_eq (code m) 103; source_device_id = id })
]

pub verify_token : String → String → ℕ → Option Payload
unfolding unpack unpack_option read_end
verify_token token secret now = elim (unpack (unwrap token)) [
  | none ↦ none
  | some signed ↦
      if signed.0 == secret
      then elim (unpack signed.1) [
        | none ↦ none
        | some subject ↦ elim (unpack_option subject.1) [
          | none ↦ none
          | some device ↦ read_end (now / 1000) device.1 (some subject.0) device.0
        ]
      ]
      else none
]

abbrev pub plain_jose : Jose
plain_jose = record {
  sign = λ c now ttl secret. wrap (print_token c (now / 1000 + ttl) secret);
  verify = verify_token;
}

read_end-ends :
    (c : Claims) (ends later : ℕ)
    → later < ends
    → read_end later
        (if c.guest then "g" ∷ print_payload "" ends else "r" ∷ print_payload "" ends)
        (some c.sub)
        c.source_device_id
      ≡ some (payload_of c)
unfolding read_end
read_end-ends c ends later h = elim (Bool-cases c.guest) [
  | inl e ↦ simp e (ground (arith, read-print "" ends, e))
  | inr e ↦ simp e (ground (arith, read-print "" ends, e))
]

pub plain_jose-IsLawful : IsLawfulJose plain_jose
unfolding verify_token print_token
plain_jose-IsLawful = record {
  verify-sign = λ c now ttl later secret filled h.
      let ends = now / 1000 + ttl in
      let tail = if c.guest then "g" ∷ print_payload "" ends else "r" ∷ print_payload "" ends in
      ground (
        arith,
        unwrap-wrap (print_token c ends secret),
        unpack-pack secret (pack c.sub (pack_option c.source_device_id tail)),
        eq_refl secret,
        unpack-pack c.sub (pack_option c.source_device_id tail),
        unpack_option-pack_option c.source_device_id tail,
        read_end-ends c ends (later / 1000) h,
      );
  trim-sign = λ c now ttl secret filled. trim-wrap (print_token c (now / 1000 + ttl) secret);
  is_empty-sign =
      λ c now ttl secret filled. is_empty-wrap (print_token c (now / 1000 + ttl) secret);
}
