-- ===== src/Source/Registry.antt =====
-- The registry of sflow/sflow_source.c: the descriptors that are watched, the sources by their
-- descriptor, and the list of all sources. A source is known by the address that `calloc` gave
-- it. Descriptors are below FD_SETSIZE. The results of the thread library are parameters.
pub mod Laws
use sflow.Common.{
  ℕ, zero, suc, Bool, true, false, List, [], ◌∷◌, ◌++◌, ltb, ◌==◌, if◌then◌else◌, Option, none,
  some, Outcome, ok, fault, ◌>>=◌,
}
use sflow.ExpandingArray.{ExpandingArray, set_at, get}
use sflow.Source.Types.{
  Source, SourceType, flowsample, inter_poll_separation, ifgeneric, phyhost, vhost, flowstat, Poll,
  poll, as_poll, as_interrupt,
}

-- `maxfd` is -1 where it is `none`.
pub record Registry : Type 0 where
  pub maxfd : Option ℕ
  pub to_watch : ℕ → Bool
  pub fd_sources : ExpandingArray
  pub all_sources : List (ℕ × Source)

-- FD_SET and FD_CLR
abbrev pub set_fd : (ℕ → Bool) → ℕ → Bool → ℕ → Bool
set_fd fds fd b = λ j. if j == fd then b else fds j

-- if (sockfd > maxfd) maxfd = sockfd;
abbrev pub raise : Option ℕ → ℕ → Option ℕ
raise none fd = some fd
raise (some top) fd = if ltb top fd then some fd else some top

-- What pthread_create returns, 0 or an error number, and the thread
pub record Spawned : Type 0 where
  pub err : ℕ
  pub thread : ℕ

unfoldable pub spawn_poll_thread : Spawned → Source → Outcome (ℕ × Source)
spawn_poll_thread spawned src = do
  p ← as_poll src.kind
  ok (
    spawned.err,
    if spawned.err == 0
        then record src { kind = poll (record p { thread = spawned.thread }) }
        else src,
  )

watch : ℕ → Source → Registry → Outcome (ℕ × Source × Registry)
watch address src r = do
  i ← as_interrupt src.kind
  arr ← set_at r.fd_sources i.fd address
  ok (
    0,
    src,
    record r {
      maxfd = raise r.maxfd i.fd;
      to_watch = set_fd r.to_watch i.fd true;
      fd_sources = arr;
    },
  )

poll_source : Spawned → Source → Registry → Outcome (ℕ × Source × Registry)
poll_source spawned src r = do (err, src') ← spawn_poll_thread spawned src; ok (err, src', r)

-- The `switch` of sflow_add_source_type
start_source : ℕ → Spawned → SourceType → Source → Registry → Outcome (ℕ × Source × Registry)
unfolding watch poll_source
start_source address spawned flowsample src r = watch address src r
start_source address spawned inter_poll_separation src r = ok (0, src, r)
start_source address spawned ifgeneric src r = poll_source spawned src r
start_source address spawned phyhost src r = poll_source spawned src r
start_source address spawned vhost src r = poll_source spawned src r
start_source address spawned flowstat src r = poll_source spawned src r

-- An error number is positive, and so the test `err < 0` never holds: the source is listed also
-- when its thread could not be made.
unfoldable pub add_source_type : ℕ → Spawned → Source → Registry → Outcome (ℕ × Registry)
unfolding start_source
add_source_type address spawned src r = do
  (err, src', r') ← start_source address spawned src.source_type src r
  ok (err, record r' { all_sources = r'.all_sources ++ (address, src') ∷ [] })

-- for (i = ea_capacity - 1; i >= 0; i--), where `n` is i + 1
unfoldable pub last_source : ℕ → ExpandingArray → Outcome (Option ℕ)
last_source zero arr = ok none
last_source (suc i) arr =
    let rest = last_source i arr in (do tmp ← get arr i; if tmp == 0 then rest else ok (some i))

is_fd : Option ℕ → ℕ → Bool
is_fd none fd = false
is_fd (some top) fd = top == fd

abbrev pub found_or : Option ℕ → Option ℕ → Option ℕ
found_or none old = old
found_or (some i) old = some i

-- If no source is left the loop does not store into `maxfd`. Closing the descriptor is the system's.
unwatch : Source → Registry → Outcome (ℕ × Registry)
unfolding is_fd
unwatch src r = do
  i ← as_interrupt src.kind
  arr ← set_at r.fd_sources i.fd 0
  last ← (if is_fd r.maxfd i.fd then last_source arr.capacity arr else ok none)
  ok (
    0,
    record r {
      maxfd = found_or last r.maxfd;
      to_watch = set_fd r.to_watch i.fd false;
      fd_sources = arr;
    },
  )

cancel_thread : (ℕ → ℕ) → Source → Registry → Outcome (ℕ × Registry)
cancel_thread cancel src r = do p ← as_poll src.kind; ok (cancel p.thread, r)

stop_type : (ℕ → ℕ) → SourceType → Source → Registry → Outcome (ℕ × Registry)
unfolding unwatch cancel_thread
stop_type cancel flowsample src r = unwatch src r
stop_type cancel inter_poll_separation src r = ok (0, r)
stop_type cancel ifgeneric src r = cancel_thread cancel src r
stop_type cancel phyhost src r = cancel_thread cancel src r
stop_type cancel vhost src r = cancel_thread cancel src r
stop_type cancel flowstat src r = cancel_thread cancel src r

-- `cancel` is pthread_cancel.
unfoldable pub stop_source : (ℕ → ℕ) → Source → Registry → Outcome (ℕ × Registry)
unfolding stop_type
stop_source cancel src r = stop_type cancel src.source_type src r
