-- ===== src/Auth/Cache.antt =====
-- The JWT cache of src/api_manager/auth/jwt_cache.{h,cc}. The LRU cache that it is built on belongs to
-- the service control client: it may drop entries at any time, and makes up none.
use esp.Base.{ℕ, ◌+◌, ◌≡◌, ◌⊎◌, Option, some, List, Str, ltb, if◌then◌else◌}

-- `SimpleLRUCache`, and what is relied on: an entry that is found was inserted. `lookup` is the
-- scoped lookup, which may change the order of the entries.
pub record LruCache (C V : Type 0) : Type 0 where
  pub find : Str → C → Option V
  pub lookup : Str → C → C
  pub insert : Str → V → C → C
  pub remove : Str → C → C
  pub find-lookup : (k j : Str) (c : C) (v : V) → find k (lookup j c) ≡ some v → find k c ≡ some v
  pub find-insert :
      (k j : Str) (w v : V) (c : C)
      → find k (insert j w c) ≡ some v
      → ((j ≡ k) × (w ≡ v)) ⊎ (find k c ≡ some v)
  pub find-remove : (k j : Str) (c : C) (v : V) → find k (remove j c) ≡ some v → find k c ≡ some v

-- `UserInfo` of src/api_manager/auth.h; the set of audiences in its order.
pub record UserInfo : Type 0 where
  pub id : Str
  pub email : Str
  pub consumer_id : Str
  pub issuer : Str
  pub audiences : List Str
  pub authorized_party : Str
  pub claims : Str

pub record JwtValue : Type 0 where
  pub user_info : UserInfo
  pub exp : ℕ

-- Times are in seconds.
abbrev pub k_jwt_cache_timeout : ℕ
k_jwt_cache_timeout = 300

abbrev pub min : ℕ → ℕ → ℕ
min a b = if ltb b a then b else a

-- `JwtCache::Insert`.
abbrev pub insert_jwt : {C : Type 0} → LruCache C JwtValue → Str → UserInfo → ℕ → ℕ → C → C
insert_jwt lru jwt user_info token_exp now cache =
    lru.insert jwt
      (record { user_info = user_info; exp = min token_exp (now + k_jwt_cache_timeout) }) cache
