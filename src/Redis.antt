-- ===== src/Redis.antt =====
-- The Redis server, which the runner's services share. It is not part of the repository: its
-- commands enter as an interface with their documented effect. The key names that the services
-- format are constructors: `task:{id}` is `HashKey.task id`.
pub mod Memory
use gigaevo_platform.Prelude.{
  String, ◌≡◌, ◌↔◌, Bool, true, false, Option, none, some, List, [], ◌∷◌, ◌++◌, arith, eq_iff,
  if◌then◌else◌, or_else, cons_if, not,
}
use gigaevo_platform.Prelude.Eq.{Eq, ◌==◌, string_eq, contains}
use gigaevo_platform.Prelude.Dict.{Dict, get}

pub data HashKey : Type 0 where
  task worker experiment_status : String → HashKey

pub data ListKey : Type 0 where
  task_queue : ListKey
  experiment_tasks : String → ListKey

pub data SetKey : Type 0 where
  all_tasks workers : SetKey

abbrev hash_key_beq : HashKey → HashKey → Bool
hash_key_beq (task a) (task b) = a == b
hash_key_beq (worker a) (worker b) = a == b
hash_key_beq (experiment_status a) (experiment_status b) = a == b
hash_key_beq _ _ = false

pub hash_key_beq_iff : (a b : HashKey) → (hash_key_beq a b ≡ true) ↔ (a ≡ b)
hash_key_beq_iff (task a) (task b) = ground (arith, eq_iff a b)
hash_key_beq_iff (worker a) (worker b) = ground (arith, eq_iff a b)
hash_key_beq_iff (experiment_status a) (experiment_status b) = ground (arith, eq_iff a b)
hash_key_beq_iff _ _ = ground arith

instance abbrev pub hash_key_eq : Eq HashKey
hash_key_eq = record { test = hash_key_beq; test_iff = hash_key_beq_iff }

abbrev list_key_beq : ListKey → ListKey → Bool
list_key_beq task_queue task_queue = true
list_key_beq (experiment_tasks a) (experiment_tasks b) = a == b
list_key_beq _ _ = false

pub list_key_beq_iff : (a b : ListKey) → (list_key_beq a b ≡ true) ↔ (a ≡ b)
list_key_beq_iff task_queue task_queue = ground arith
list_key_beq_iff (experiment_tasks a) (experiment_tasks b) = ground (arith, eq_iff a b)
list_key_beq_iff _ _ = ground arith

instance abbrev pub list_key_eq : Eq ListKey
list_key_eq = record { test = list_key_beq; test_iff = list_key_beq_iff }

abbrev set_key_beq : SetKey → SetKey → Bool
set_key_beq all_tasks all_tasks = true
set_key_beq workers workers = true
set_key_beq _ _ = false

pub set_key_beq_iff : (a b : SetKey) → (set_key_beq a b ≡ true) ↔ (a ≡ b)
set_key_beq_iff all_tasks all_tasks = ground arith
set_key_beq_iff _ _ = ground arith

instance abbrev pub set_key_eq : Eq SetKey
set_key_eq = record { test = set_key_beq; test_iff = set_key_beq_iff }

-- `LREM key 0 v`: every occurrence goes.
abbrev pub without : String → List String → List String
without v [] = []
without v (x ∷ xs) = cons_if (not (x == v)) x (without v xs)

pub record Redis : Type 1 where
  pub Hashes : Type 0
  pub hgetall : Hashes → HashKey → Dict String
  pub hset : Hashes → HashKey → Dict String → Hashes
  pub hsetnx : Hashes → HashKey → String → String → Hashes
  pub delete : Hashes → HashKey → Hashes
  -- `HINCRBY key field 1`
  pub hincrby : Hashes → HashKey → String → Hashes
  pub get-hset :
      (h : Hashes) (k : HashKey) (m : Dict String) (f : String)
      → get (hgetall (hset h k m) k) f ≡ or_else (get m f) (get (hgetall h k) f)
  pub hgetall-hset_ne :
      (h : Hashes) (k j : HashKey) (m : Dict String)
      → (k == j) ≡ false
      → hgetall (hset h k m) j ≡ hgetall h j
  pub get-hsetnx :
      (h : Hashes) (k : HashKey) (f v g : String)
      → get (hgetall (hsetnx h k f v) k) g
        ≡ or_else (get (hgetall h k) g) (if f == g then some v else none)
  pub hgetall-hsetnx_ne :
      (h : Hashes) (k j : HashKey) (f v : String)
      → (k == j) ≡ false
      → hgetall (hsetnx h k f v) j ≡ hgetall h j
  pub hgetall-hincrby_ne :
      (h : Hashes) (k j : HashKey) (f : String)
      → (k == j) ≡ false
      → hgetall (hincrby h k f) j ≡ hgetall h j
  pub get-hincrby_ne :
      (h : Hashes) (k : HashKey) (f g : String)
      → (f == g) ≡ false
      → get (hgetall (hincrby h k f) k) g ≡ get (hgetall h k) g
  pub hgetall-delete :
      (h : Hashes) (k j : HashKey) → hgetall (delete h k) j ≡ (if k == j then [] else hgetall h j)
  pub Lists : Type 0
  pub lrange : Lists → ListKey → List String
  pub lpush : Lists → ListKey → String → Lists
  pub lrem : Lists → ListKey → String → Lists
  pub brpop : Lists → ListKey → Option (String × Lists)
  pub lrange-lpush :
      (l : Lists) (k j : ListKey) (v : String)
      → lrange (lpush l k v) j ≡ (if k == j then v ∷ lrange l j else lrange l j)
  pub lrange-lrem :
      (l : Lists) (k j : ListKey) (v : String)
      → lrange (lrem l k v) j ≡ (if k == j then without v (lrange l j) else lrange l j)
  -- A pop that times out finds the list empty; any other takes the rightmost element.
  pub brpop_empty : (l : Lists) (k : ListKey) → lrange l k ≡ [] → brpop l k ≡ none
  pub brpop_last :
      (l : Lists) (k : ListKey) (xs : List String) (x : String)
      → lrange l k ≡ xs ++ x ∷ []
      → (rest : Lists) × (brpop l k ≡ some (x, rest))
        × ((j : ListKey) → lrange rest j ≡ (if k == j then xs else lrange l j))
  pub Sets : Type 0
  pub smembers : Sets → SetKey → List String
  pub sadd : Sets → SetKey → String → Sets
  pub srem : Sets → SetKey → String → Sets
  pub contains-sadd :
      (s : Sets) (k j : SetKey) (v w : String)
      → contains w (smembers (sadd s k v) j) ≡ (
          if k == j
          then (if v == w then true else contains w (smembers s j))
          else contains w (smembers s j))
  pub contains-srem :
      (s : Sets) (k j : SetKey) (v w : String)
      → contains w (smembers (srem s k v) j) ≡ (
          if k == j
          then (if v == w then false else contains w (smembers s j))
          else contains w (smembers s j))

-- What the services see of one server. The commands on one kind of key leave the other kinds alone.
pub record Store ⦃R : Redis⦄ : Type 0 where
  pub hashes : R.Hashes
  pub lists : R.Lists
  pub sets : R.Sets
