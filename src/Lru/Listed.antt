-- ===== src/Lru/Listed.antt =====
-- A cache of the `lru` crate as the list of its entries: it shows that the crate's laws can hold,
-- and runs the tests.
use reth_sentry_node.Prelude.{ℕ, refl, List, [], ◌∷◌, lookup, take, is_some}
use reth_sentry_node.Lru.{LruCrate, IsLawful}
use reth_sentry_node.Lru.Assoc.{without, to_front}

pub record Listed (K V : Type 0) : Type 0 where
  pub cap : ℕ
  pub iter : List (K × V)

abbrev pub listed : LruCrate
listed = record {
  LruCache = Listed;
  new = λ n. record { cap = n; iter = [] };
  cap = λ c. c.cap;
  iter = λ c. c.iter;
  contains = λ dec c k. is_some (lookup dec k c.iter);
  peek = λ dec c k. lookup dec k c.iter;
  get = λ dec c k. (lookup dec k c.iter, record c { iter = to_front dec k c.iter });
  promote = λ dec c k. record c { iter = to_front dec k c.iter };
  push = λ dec c k v. record c { iter = take c.cap ((k, v) ∷ without dec k c.iter) };
}

pub listed-IsLawful : IsLawful listed
listed-IsLawful = record {
  iter-new = λ n. refl;
  cap-new = λ n. refl;
  contains-iter = λ dec c k. refl;
  peek-iter = λ dec c k. refl;
  get-iter = λ dec c k. refl;
  iter-get = λ dec c k. refl;
  cap-get = λ dec c k. refl;
  iter-promote = λ dec c k. refl;
  cap-promote = λ dec c k. refl;
  iter-push = λ dec c k v. refl;
  cap-push = λ dec c k v. refl;
}
