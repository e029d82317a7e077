-- ===== src/Api/Sessions/Tokens.antt =====
-- What sessions rely on: `jose` (HS256), Redis texts with an end, the hash of a token, and JSON of the
-- stored payload.
use Prim.Native.Nat.{◌/◌}
use messaging_system.Common.{
  ◌≡◌, ◌≢◌, ℕ, ◌+◌, ◌*◌, ◌<◌, String, Bool, false, Option, none, some, trim, is_empty,
}

-- What a token is signed with: the subject, and the fields of the payload.
pub record Claims : Type 0 where
  pub sub : String
  pub email_verified : Bool
  pub guest : Bool
  pub source_device_id : Option String

-- What is read of a verified payload: texts where they are texts, and `guest === true`.
pub record Payload : Type 0 where
  pub sub : Option String
  pub guest : Bool
  pub source_device_id : Option String

abbrev pub payload_of : Claims → Payload
payload_of c = record { sub = some c.sub; guest = c.guest; source_device_id = c.source_device_id }

-- Times are in milliseconds, lives in seconds. `verify` is none where `jwtVerify` throws.
pub record Jose : Type 0 where
  pub sign : Claims → ℕ → ℕ → String → String
  pub verify : String → String → ℕ → Option Payload

pub record IsLawfulJose (jose : Jose) : Type 0 where
  -- the time of issue, the end and the clock are whole seconds; an empty secret is no key
  pub verify-sign :
      (c : Claims) (now ttl later : ℕ) (secret : String)
      → is_empty secret ≡ false
      → later / 1000 < now / 1000 + ttl
      → jose.verify (jose.sign c now ttl secret) secret later ≡ some (payload_of c)
  -- a compact token has no white space, and is not empty
  pub trim-sign :
      (c : Claims) (now ttl : ℕ) (secret : String)
      → is_empty secret ≡ false
      → trim (jose.sign c now ttl secret) ≡ jose.sign c now ttl secret
  pub is_empty-sign :
      (c : Claims) (now ttl : ℕ) (secret : String)
      → is_empty secret ≡ false
      → is_empty (jose.sign c now ttl secret) ≡ false

-- `SET key value EX ttl`, `GET` and `DEL`.
pub record TokenStore : Type 1 where
  pub State : Type 0
  pub get : String → ℕ → State → Option String
  pub set : String → String → ℕ → ℕ → State → State
  pub del : String → State → State

pub record IsLawfulStore (store : TokenStore) : Type 0 where
  pub get-set :
      (k v : String) (ttl now later : ℕ) (s : store.State)
      → later < now + ttl * 1000
      → store.get k later (store.set k v ttl now s) ≡ some v
  pub get-del : (k : String) (now : ℕ) (s : store.State) → store.get k now (store.del k s) ≡ none
  pub get-del_other :
      (j k : String) (now : ℕ) (s : store.State)
      → j ≢ k
      → store.get j now (store.del k s) ≡ store.get j now s

pub record StoredRefreshPayload : Type 0 where
  pub user_id : String
  pub v : ℕ

-- The hash of a token, and `JSON` of the payload.
pub record Payloads : Type 0 where
  pub token_hash : String → String
  pub stringify : StoredRefreshPayload → String
  pub parse : String → Option StoredRefreshPayload

pub record IsLawfulPayloads (payloads : Payloads) : Type 0 where
  pub parse-stringify : (p : StoredRefreshPayload) → payloads.parse (payloads.stringify p) ≡ some p
  pub is_empty-stringify : (p : StoredRefreshPayload) → is_empty (payloads.stringify p) ≡ false
