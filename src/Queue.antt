-- ===== src/Queue.antt =====
-- BlockingQueue<T> of include/utils.h: a ring of `capacity + 1` slots between threads. Each call of
-- push and pop runs under the queue's mutex, so it is one step here; `none` says that the caller
-- waits on the condition variable, which it does before it has changed anything.
pub mod Holds
pub mod Schedule
mod Tests
use i_tcp.Common.{
  ℕ, ◌+◌, ◌-◌, ◌%◌, Bool, Option, none, some, List, ◌==◌, if◌then◌else◌, ◌>>=◌, get_elem?, set,
  replicate,
}

pub record BlockingQueue {ℓ} (A : Type ℓ) : Type ℓ where
  pub start : ℕ  -- _start
  pub end : ℕ  -- _end
  pub capacity : ℕ  -- _capacity
  pub vt : List A  -- _vt

module _ {ℓ} {A : Type ℓ} where
  -- BlockingQueue(int capacity); `blank` is the value that T's default constructor leaves.
  unfoldable pub new : ℕ → A → BlockingQueue A
  new capacity blank = record {
    start = 0;
    end = 0;
    capacity = capacity;
    vt = replicate (capacity + 1) blank;
  }

  unfoldable pub is_empty : BlockingQueue A → Bool
  is_empty q = q.end == q.start

  unfoldable pub is_full : BlockingQueue A → Bool
  is_full q = (q.start + q.capacity - q.end) % (q.capacity + 1) == 0

  -- `_vt[_end++] = e; _end %= (_capacity + 1)`
  unfoldable pub push : BlockingQueue A → A → Option (BlockingQueue A)
  unfolding is_full
  push q e =
      if is_full q
      then none
      else some (record q { end = (q.end + 1) % (q.capacity + 1); vt = set q.vt q.end e })

  -- `res = _vt[_start++]; _start %= (_capacity + 1)`
  unfoldable pub pop : BlockingQueue A → Option (A × BlockingQueue A)
  unfolding is_empty
  pop q = if is_empty q then none else do
    res ← get_elem? q.vt q.start
    some (res, record q { start = (q.start + 1) % (q.capacity + 1) })
