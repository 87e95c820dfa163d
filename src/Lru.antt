-- ===== src/Lru.antt =====
-- The `lru` crate as the code uses it: an interface, and the laws that its documentation states.
-- `LruCache::iter` visits the entries in most-recently-used order; every law is stated by it.
pub mod Assoc
pub mod Firsts
pub mod Keys
pub mod Laws
pub mod Listed
use reth_sentry_node.Prelude.{
  ℕ, ◌≡◌, Bool, Option, none, some, List, [], ◌∷◌, lookup, take, is_some,
}
use Assoc.{without, to_front}

-- `push` also returns an old or evicted entry, which no call in the code reads.
pub record LruCrate : Type 1 where
  pub LruCache : Type 0 → Type 0 → Type 0
  pub new : {K V : Type 0} → ℕ → LruCache K V
  pub cap : {K V : Type 0} → LruCache K V → ℕ
  pub iter : {K V : Type 0} → LruCache K V → List (K × V)
  pub contains : {K V : Type 0} → Discrete K → LruCache K V → K → Bool
  pub peek : {K V : Type 0} → Discrete K → LruCache K V → K → Option V
  pub get : {K V : Type 0} → Discrete K → LruCache K V → K → Option V × LruCache K V
  pub promote : {K V : Type 0} → Discrete K → LruCache K V → K → LruCache K V
  pub push : {K V : Type 0} → Discrete K → LruCache K V → K → V → LruCache K V

-- The documented behaviour of each call.
pub record IsLawful (lru : LruCrate) : Type 1 where
  pub iter-new : {K V : Type 0} (n : ℕ) → lru.iter (lru.new {K = K} {V = V} n) ≡ []
  pub cap-new : {K V : Type 0} (n : ℕ) → lru.cap (lru.new {K = K} {V = V} n) ≡ n
  pub contains-iter :
      {K V : Type 0} (dec : Discrete K) (c : lru.LruCache K V) (k : K)
      → lru.contains dec c k ≡ is_some (lookup dec k (lru.iter c))
  pub peek-iter :
      {K V : Type 0} (dec : Discrete K) (c : lru.LruCache K V) (k : K)
      → lru.peek dec c k ≡ lookup dec k (lru.iter c)
  pub get-iter :
      {K V : Type 0} (dec : Discrete K) (c : lru.LruCache K V) (k : K)
      → (lru.get dec c k).0 ≡ lookup dec k (lru.iter c)
  pub iter-get :
      {K V : Type 0} (dec : Discrete K) (c : lru.LruCache K V) (k : K)
      → lru.iter (lru.get dec c k).1 ≡ to_front dec k (lru.iter c)
  pub cap-get :
      {K V : Type 0} (dec : Discrete K) (c : lru.LruCache K V) (k : K)
      → lru.cap (lru.get dec c k).1 ≡ lru.cap c
  pub iter-promote :
      {K V : Type 0} (dec : Discrete K) (c : lru.LruCache K V) (k : K)
      → lru.iter (lru.promote dec c k) ≡ to_front dec k (lru.iter c)
  pub cap-promote :
      {K V : Type 0} (dec : Discrete K) (c : lru.LruCache K V) (k : K)
      → lru.cap (lru.promote dec c k) ≡ lru.cap c
  pub iter-push :
      {K V : Type 0} (dec : Discrete K) (c : lru.LruCache K V) (k : K) (v : V)
      → lru.iter (lru.push dec c k v) ≡ take (lru.cap c) ((k, v) ∷ without dec k (lru.iter c))
  pub cap-push :
      {K V : Type 0} (dec : Discrete K) (c : lru.LruCache K V) (k : K) (v : V)
      → lru.cap (lru.push dec c k v) ≡ lru.cap c
