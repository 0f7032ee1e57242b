-- ===== src/Redis/Memory.antt =====
-- A Redis server in memory, which meets the interface: a hash is a list of writes, newest first.
use gigaevo_platform.Prelude.{
  append_text, String, ◌≡◌, refl, ap, true, false, Option, none, some, List, [], ◌∷◌, ◌++◌, arith,
  eq_iff, if◌then◌else◌, or_else, Bool-cases, inl, inr,
}
use gigaevo_platform.Prelude.Eq.{Eq, ◌==◌, string_eq, contains, beq_refl}
use gigaevo_platform.Prelude.Dict.{Dict, get, get-append}
use gigaevo_platform.Redis.{
  Redis, HashKey, ListKey, SetKey, hash_key_eq, list_key_eq, set_key_eq, without,
}

contains-without :
    (v w : String) (xs : List String)
    → contains w (without v xs) ≡ (if v == w then false else contains w xs)
contains-without v w [] = ground arith
contains-without v w (x ∷ xs) =
    ground (arith, contains-without v w xs, eq_iff x v, eq_iff x w, eq_iff v w)

-- The last element of a list, and those before it.
abbrev unsnoc : List String → Option (String × List String)
unsnoc [] = none
unsnoc (x ∷ xs) = elim (unsnoc xs) [ none ↦ some (x, []) | some (y, ys) ↦ some (y, x ∷ ys) ]

unsnoc-append : (xs : List String) (x : String) → unsnoc (xs ++ x ∷ []) ≡ some (x, xs)
unsnoc-append [] x = refl
unsnoc-append (y ∷ ys) x = rw (unsnoc-append ys x)

module _ {K V : Type 0} ⦃e : Eq K⦄ where
  abbrev update : (K → V) → K → V → K → V
  update f k v j = if k == j then v else f j

  update_self :
      (f : K → V) (k j : K) (g : V → V) → update f k (g (f k)) j ≡ (if k == j then g (f j) else f j)
  update_self f k j g = elim (Bool-cases (k == j)) [
    | inl same ↦ rw same (ap (λ i. g (f i)) ((e.test_iff k j).0 same))
    | inr other ↦ rw other
  ]

abbrev Lists : Type 0
Lists = ListKey → List String

abbrev brpop : Lists → ListKey → Option (String × Lists)
brpop l k = elim (unsnoc (l k)) [ none ↦ none | some (x, xs) ↦ some (x, update l k xs) ]

pub brpop_last :
    (l : Lists) (k : ListKey) (xs : List String) (x : String)
    → l k ≡ xs ++ x ∷ []
    → (rest : Lists) × (brpop l k ≡ some (x, rest))
      × ((j : ListKey) → rest j ≡ (if k == j then xs else l j))
brpop_last l k xs x h = (update l k xs, rw (brpop, h, unsnoc-append xs x), λ j. refl)

pub brpop_empty : (l : Lists) (k : ListKey) → l k ≡ [] → brpop l k ≡ none
brpop_empty l k h = rw (brpop, h)

pub lrange-lpush :
    (l : Lists) (k j : ListKey) (v : String)
    → update l k (v ∷ l k) j ≡ (if k == j then v ∷ l j else l j)
lrange-lpush l k j v = update_self l k j (λ xs. v ∷ xs)

pub lrange-lrem :
    (l : Lists) (k j : ListKey) (v : String)
    → update l k (without v (l k)) j ≡ (if k == j then without v (l j) else l j)
lrange-lrem l k j v = update_self l k j (without v)

abbrev Sets : Type 0
Sets = SetKey → List String

pub contains-sadd :
    (s : Sets) (k j : SetKey) (v w : String)
    → contains w (update s k (v ∷ s k) j)
      ≡ (if k == j then (if v == w then true else contains w (s j)) else contains w (s j))
contains-sadd s k j v w = rw (update_self s k j (λ xs. v ∷ xs)) (ground arith)

pub contains-srem :
    (s : Sets) (k j : SetKey) (v w : String)
    → contains w (update s k (without v (s k)) j)
      ≡ (if k == j then (if v == w then false else contains w (s j)) else contains w (s j))
contains-srem s k j v w =
    rw (update_self s k j (without v)) (ground (arith, contains-without v w (s j)))

abbrev write : (HashKey → Dict String) → HashKey → Dict String → HashKey → Dict String
write h k m = update h k (m ++ h k)

pub get-write :
    (h : HashKey → Dict String) (k : HashKey) (m : Dict String) (f : String)
    → get (write h k m k) f ≡ or_else (get m f) (get (h k) f)
get-write h k m f = rw (beq_refl k) (get-append m (h k) f)

pub get-write_new :
    (h : HashKey → Dict String) (k : HashKey) (f v g : String)
    → get (update h k (h k ++ (f, v) ∷ []) k) g
      ≡ or_else (get (h k) g) (if f == g then some v else none)
unfolding get
get-write_new h k f v g = rw (beq_refl k) (get-append (h k) ((f, v) ∷ []) g)

-- A counter as a text of strokes.
abbrev count_up : Option String → String
count_up none = "I"
count_up (some v) = append_text v "I"

abbrev increment : (HashKey → Dict String) → HashKey → String → HashKey → Dict String
increment h k f = write h k ((f, count_up (get (h k) f)) ∷ [])

pub get-increment_ne :
    (h : HashKey → Dict String) (k : HashKey) (f g : String)
    → (f == g) ≡ false
    → get (increment h k f k) g ≡ get (h k) g
unfolding get
get-increment_ne h k f g e = rw (beq_refl k) (rw e)

instance abbrev pub memory : Redis
memory = record {
  Hashes = HashKey → Dict String;
  hgetall = λ h k. h k;
  hset = write;
  hsetnx = λ h k f v. update h k (h k ++ (f, v) ∷ []);
  delete = λ h k. update h k [];
  get-hset = get-write;
  hgetall-hset_ne = λ h k j m e. rw e;
  get-hsetnx = get-write_new;
  hincrby = increment;
  hgetall-hsetnx_ne = λ h k j f v e. rw e;
  hgetall-hincrby_ne = λ h k j f e. rw e;
  get-hincrby_ne = get-increment_ne;
  hgetall-delete = λ h k j. refl;
  Lists = Lists;
  lrange = λ l k. l k;
  lpush = λ l k v. update l k (v ∷ l k);
  lrem = λ l k v. update l k (without v (l k));
  brpop = brpop;
  lrange-lpush = lrange-lpush;
  lrange-lrem = lrange-lrem;
  brpop_empty = brpop_empty;
  brpop_last = brpop_last;
  Sets = Sets;
  smembers = λ s k. s k;
  sadd = λ s k v. update s k (v ∷ s k);
  srem = λ s k v. update s k (without v (s k));
  contains-sadd = contains-sadd;
  contains-srem = contains-srem;
}
