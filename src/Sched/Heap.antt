-- ===== src/Sched/Heap.antt =====
-- Memory as src/scheduler.c uses it: nodes at addresses, the two statics, and the commands that
-- read and write them. A command fails where the source reads or writes through a pointer that is
-- NULL or that points at no node.
use psw_afdx.Base.{ℕ, ◌≡◌, ◌≢◌, Option, none, some, ◌==◌, if◌then◌else◌, arith}
use psw_afdx.Sched.Time.{Timespec}

abbrev pub Ptr : Type 0
Ptr = ℕ

abbrev pub null : Ptr
null = 0

-- `scheduler_node_t`; `action` and `arg` are the function's address and the pointer `data`.
pub record Node : Type 0 where
  pub interval : Timespec
  pub next_time : Timespec
  pub action : ℕ
  pub arg : ℕ
  pub prev : Ptr
  pub next : Ptr

abbrev pub Memory : Type 0
Memory = Ptr → Option Node

pub record Sched : Type 0 where
  pub memory : Memory
  pub first : Ptr
  pub last : Ptr

-- The memory in which the cell of one address is replaced.
unfoldable pub write : Memory → Ptr → Option Node → Memory
write h p c a = if a == p then c else h a

abbrev pub Cmd : Type 0 → Type 0
Cmd A = Sched → Option (A × Sched)

abbrev pub pure : {A : Type 0} → A → Cmd A
pure a s = some (a, s)

abbrev pub fail : {A : Type 0} → Cmd A
fail s = none

module _ {A B : Type 0} where
  abbrev pub bind_result : Option (A × Sched) → (A → Cmd B) → Option (B × Sched)
  bind_result none k = none
  bind_result (some (a, s)) k = k a s

  infixl 5 ◌>>=◌ ◌>>◌
  abbrev pub ◌>>=◌ : Cmd A → (A → Cmd B) → Cmd B
  m >>= k = λ s. bind_result (m s) k

  abbrev pub ◌>>◌ : Cmd A → Cmd B → Cmd B
  m >> n = m >>= λ _. n

pub then_lem :
    {A : Type 0} (m : Cmd (Unit {0})) (k : Cmd A) (s t : Sched)
    → m s ≡ some (tt, t)
    → (m >> k) s ≡ k t
then_lem m k s t e = rw e

abbrev pub get_first : Cmd Ptr
get_first s = some (s.first, s)

abbrev pub get_last : Cmd Ptr
get_last s = some (s.last, s)

abbrev pub set_first : Ptr → Cmd (Unit {0})
set_first p s = some (tt, record s { first = p })

abbrev pub set_last : Ptr → Cmd (Unit {0})
set_last p s = some (tt, record s { last = p })

unfoldable pub load : Ptr → Cmd Node
load p s = if p == null then none else elim (s.memory p) [ none ↦ none | some n ↦ some (n, s) ]

-- A new node at an address that `malloc` returned.
unfoldable pub malloc : Ptr → Node → Cmd (Unit {0})
malloc p n s = some (tt, record s { memory = write s.memory p (some n) })

-- `*p = f(*p)`.
unfoldable pub modify : Ptr → (Node → Node) → Cmd (Unit {0})
unfolding load
modify p f = do n ← load p; λ s. some (tt, record s { memory = write s.memory p (some (f n)) })

pub write_self : (h : Memory) (p : Ptr) (n : Option Node) → write h p n p ≡ n
unfolding write
write_self h p n = ground arith

pub write_ne : (h : Memory) (p a : Ptr) (n : Option Node) → a ≢ p → write h p n a ≡ h a
unfolding write
write_ne h p a n ne = ground arith

pub load_lem :
    (s : Sched) (p : Ptr) (n : Node) → p ≢ null → s.memory p ≡ some n → load p s ≡ some (n, s)
unfolding load
load_lem s p n ne at = ground arith

pub modify_lem :
    (s : Sched) (p : Ptr) (n : Node) (f : Node → Node)
    → p ≢ null
    → s.memory p ≡ some n
    → modify p f s ≡ some (tt, record s { memory = write s.memory p (some (f n)) })
unfolding modify
modify_lem s p n f ne at = rw (load_lem s p n ne at)

unfoldable pub free : Ptr → Cmd (Unit {0})
unfolding load
free p = do _ ← load p; λ s. some (tt, record s { memory = write s.memory p none })

abbrev pub set_prev : Ptr → Ptr → Cmd (Unit {0})
set_prev p q = modify p (λ n. record n { prev = q })

abbrev pub set_next : Ptr → Ptr → Cmd (Unit {0})
set_next p q = modify p (λ n. record n { next = q })

abbrev pub set_next_time : Ptr → Timespec → Cmd (Unit {0})
set_next_time p t = modify p (λ n. record n { next_time = t })
