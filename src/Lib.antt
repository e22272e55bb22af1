-- ===== src/Lib.antt =====
-- CsSignal, a library of signals and slots in C++: the list that all its state is kept in, and
-- what is built on it.
--
-- Parts, and the files that model them
--
-- RcuList models `rcu_list` of src/annex/cs_libguarded/cs_rcu_list.h, a doubly linked list that
--   threads read while one of them writes. The nodes are a heap, a function from addresses to
--   nodes; a pointer is an optional address, and a read or a write through a null or dangling
--   pointer is a fault, `none`. `push_back`, `push_front`, `emplace` and `erase` are the methods
--   with these names, each store of a field one update of the heap.
--   RcuList/Chain relates a heap to the sequence of cells in it; RcuList/Push, Erase, Emplace and
--   Halves are about what each operation does to that sequence.
-- RcuList/Iterator models `begin`, `operator*` and `operator++`, and the loops that the library writes
--   with them: a range-for, the loop of the destructors that erases while it iterates, and `find`
--   of src/signal/cs_signal.h.
-- RcuList/Guard models `rcu_guard`. An entry of the zombie list is either a guard or a node that was
--   erased. The entries are a list, newest first. `unlock` frees the nodes behind its own entry if
--   no guard is among the entries there. `IsSound` of Guard/Sound is the invariant: the list is in
--   order, a dead node is marked, is in no cell, is entered once, and leads only to nodes that
--   live or died after it.
-- RcuList/Schedule models threads with guards and iterators, and the schedules of their steps. One
--   operation of the list or of a guard is one step; `rcu_write_lock` is two, the entry in the
--   zombie list and the mutex, and so is `rcu_write_unlock`. A guard that wants a mutex which is
--   held changes nothing.
-- RcuList/Destructor models `~rcu_list`. What it leaves is a list without ends: the zombie entries that
--   it does not free, and their nodes.
-- SharedList models the same list as the rest of the library sees it, in terms of its items, with and
--   without a handle of src/annex/cs_libguarded/cs_rcu_guarded.h on it.
-- Bento models `TeaCup`, `Bento` and `cs_check_connect_args` of src/signal/cs_internal.h. A type, a
--   class and the address of a method are numbers, and a tuple of arguments is the list of its
--   types with the list of its values.
-- Connections models `SignalBase` and `SlotBase` of src/signal/cs_signal.h, cs_signal.cpp, cs_slot.h
--   and cs_slot.cpp. A world is a partial function from addresses to senders, one to receivers,
--   and the set of senders that are being destroyed. A sender keeps its connections in a
--   `RcuList`, a receiver its senders. Connections/Connect has the three overloads of `connect`,
--   Connections/Disconnect `internal_disconnect`, Connections/Destroy the destructors,
--   Connections/Queries the three queries. A call is given the address of its first guard, and the
--   guard of a nested handle is the next one. Each of these operations takes a write handle of the
--   list that it changes, so that a held mutex is `none` too.
-- Connections/Network models what a program does with these: a history of constructors, `connect`,
--   `disconnect` and destructors, in one thread and outside of `activate`. An operation that is given
--   an object which does not exist is left out, since no program calls it. Network/Specification says
--   in terms of one sequence of connections for each sender what they are to do, and `Represents` of
--   Network/Represents relates a world to that: each object that exists is there with its lists in order
--   and not locked, and the two lists of a connection agree.
-- Activate models `activate` of src/signal/cs_signal.h, and `PendingSlot` and the virtual functions of
--   src/signal/cs_slot.h and cs_slot.cpp, in one thread. A `Machine` is the world with the program's
--   variables and what the thread has: the two thread-local variables, and the mutex of the set of
--   destroyed senders. The slots, the types and the overrides of the virtual functions are an
--   `Environment`, whose functions may change the whole machine, also the list that the loop is at,
--   and end in a fault, in an exception or normally; so does `compareThreads`. Activate/Arguments has
--   the arguments: a reference is the address of a variable, and the `TeaCup_Data` of a queued
--   connection has new variables for its copy. `activate` forwards its arguments for each such
--   connection again; what a move leaves of a value is given by the type. Activate/Slots has the ways
--   to a slot. Each round of the loop looks the sender and its list up anew. If the sender is gone at
--   the end, its list is no part of the world any more, and the end of the read handle changes
--   nothing there; RcuList/Destructor is about what that handle does to the remains of the list.
-- Program models a program in one thread whose actions are those operations and emissions of a
--   signal, each emission with the fuel that its list needs. Program/Promises says what it is to do if
--   it overrides nothing and its slots only change variables.
-- Guarded models the handles of src/annex/cs_libguarded/cs_rcu_guarded.h, with the lock at the first
--   access. A move of a handle is a fault, since it assigns the guard, by a function that has no
--   `return`.
-- Bento/Copies models `TeaCup_Data` of src/signal/cs_internal.h as a slot reads it, without the places
--   of its copy.
-- Tests models lists and a world of one connection, at which the theorems are tried.
--
-- Bounds
--
-- A loop over a list has the number of addresses that were ever allocated, plus one, as fuel: the
-- cells of a list have different addresses, all of them allocated (RcuList/Bound), so that no
-- theorem on such a loop has a hypothesis on fuel. The loop of `activate` is given its fuel: a slot may
-- connect anew each time, and then the loop has no end. Where the slots leave the sender alone, the
-- number of connections plus one is enough. Addresses and counters are unbounded; `m_activateBusy`
-- is not decremented at zero.
--
-- Not modelled
--
-- `operator--`, which does not compile; `clear` and `insert` of the list, which are declared but
-- not defined; allocation that fails; the interleaving of the stores within one operation;
-- `activate` in several threads at once; the assignment of a handle to itself; what a compiler
-- makes of a function without its `return`; an allocator with a state, which `unlock` would take
-- from a list that is gone; exceptions of copies of arguments and of allocations; `clone`, which is
-- the identity in the model, since the members of a `Bento` are never written. The tests and the
-- demonstration in test/ are no part of the library.
mod Prelude
pub mod RcuList
pub mod SharedList
pub mod Bento
pub mod Activate
pub mod Connections
pub mod Guarded
pub mod Program
pub mod Tests
