-- ===== src/Claimer/Tests.antt =====
-- Runs of include/jay/address_claimer.hpp.
use jay.Base.{
  suc, ◌+◌, ◌^◌, ◌≤◌, ◌≡◌, ◌≢◌, refl, arith, true, false, none, some, [], ◌∷◌, ◌++◌, if◌then◌else◌,
  leb,
}
use jay.Base.Map.{find, set, erase, try_emplace}
use jay.Types.{j1939_max_unicast_addr}
use jay.Name.{Name, rank, self_config_address}
use jay.Header.{is_request, pdu_specific}
use jay.Header.Plain.{plain}
use jay.Network.{
  Network, full, find_address, search, insert, addr_of, name_at, new, same_name, same_addr,
}
use jay.AddressStateMachine.{
  Sm, Event, no_address, claiming, has_address, address_claim, first_match,
  first_match-IsInterpreter, IsInterpreter, transition_table,
}
use jay.AddressStateMachine.Reactions.{at}
use jay.Claimer.Defs.{Claimer, claimer_env, start_claim_delay, claim_timeout, expire, process_claim}
use jay.Claimer.Startup.{expire_twice}
use jay.Claimer.Defence.{process_claim_contest}
use jay.Claimer.Histories.{
  arrives, starts, runs, expires, history, history-timed, timed, prompt, elapses, handles,
}
use jay.Claimer.Late.{late_timeout}
use jay.Claimer.Cancelled.{no_starts, start_address_claim_cancelled}
use jay.Claimer.Contention.{Settled, contention}
use jay.Frame.{Frame, make_address_claim}

-- Name 3 has the address 10; the claimer's own name is self configuring.
abbrev own : Name
own = 2 ^ 63 + 7

abbrev world : Claimer plain
world = record {
  table = (insert new 3 10).0;
  timer = some (start_claim_delay 10);
  queued = [];
  posted = [];
  frames = [];
  gained = [];
  losses = [];
  refusals = 0;
  has_on_frame = true;
  has_on_address = true;
  has_on_lose_address = true;
  has_on_error = true;
}

abbrev machine : Event → Sm (Claimer plain) → Sm (Claimer plain)
machine = first_match (transition_table (claimer_env plain own))

machine-IsInterpreter : IsInterpreter (transition_table (claimer_env plain own)) machine
machine-IsInterpreter = first_match-IsInterpreter (transition_table (claimer_env plain own))

room : full world.table ≡ false
unfolding full insert new find set erase try_emplace same_name same_addr
room = refl

next_free : find_address world.table own 10 ≡ 11
unfolding find_address search self_config_address insert new find set erase try_emplace same_name
    same_addr
next_free = refl

unicast : find_address world.table own 10 ≤ j1939_max_unicast_addr
unicast = omega (arith, next_free)

free : name_at world.table (find_address world.table own 10) ≡ none
unfolding find_address search self_config_address insert new find set erase try_emplace same_name
    same_addr
free = refl

expire_twice_example :
    let r = find_address world.table own 10 in
    let s = expire plain machine (expire plain machine (at no_address 0 0 world)) in
    (s.state ≡ has_address)
    × (s.has_address_address ≡ r)
    × (addr_of s.world.table own ≡ some r)
    × (name_at s.world.table r ≡ some own)
expire_twice_example =
    expire_twice plain own machine machine-IsInterpreter 0 0 world 10 refl room unicast free

owned : name_at world.table 10 ≡ some 3
unfolding insert new find set erase try_emplace same_name same_addr
owned = refl

abbrev before : Sm (Claimer plain)
before = at has_address 10 10 world

process_claim_contest_example :
    let s = process_claim plain 5 10 before in
    let wins = leb (rank 5) (rank 3) in
    (s.world.posted
      ≡ (if wins then before.world.posted ++ address_claim 5 10 ∷ [] else before.world.posted))
    × (s.world.refusals ≡ (
        if wins
        then before.world.refusals
        else (if before.world.has_on_error
            then suc before.world.refusals
            else before.world.refusals)))
    × (name_at s.world.table 10 ≡ (if wins then some 5 else some 3))
    × (s.world.frames ≡ before.world.frames)
    × (s.world.timer ≡ before.world.timer)
    × (s.state ≡ before.state)
process_claim_contest_example =
    process_claim_contest plain before 3 5 10 (omega arith) owned (omega arith) (omega arith)

abbrev calm : Claimer plain
calm = record world { timer = none }

-- A claim of name 5 for the address 10, and a request for the address of every node.
abbrev claim_10 : Frame plain
claim_10 = make_address_claim plain 5 10

abbrev request_all : Frame plain
request_all = record { header = (0x18EAFF21, 3); payload = claim_10.payload }

all_prompt :
    prompt {c = plain} (starts 10 ∷ expires ∷ arrives claim_10 ∷ runs ∷ runs ∷ expires ∷ []) ≡ true
unfolding prompt
all_prompt = refl

history-timed_example :
    let s =
      history plain own machine machine-IsInterpreter
        (starts 10 ∷ expires ∷ arrives claim_10 ∷ runs ∷ runs ∷ expires ∷ [])
        (at no_address 0 0 calm) in
    timed s.state s.world.timer ≡ true
history-timed_example =
    history-timed plain own machine machine-IsInterpreter
      (starts 10 ∷ expires ∷ arrives claim_10 ∷ runs ∷ runs ∷ expires ∷ []) 0 0 calm refl refl refl
      all_prompt

asks : is_request plain request_all.header ≡ true
unfolding is_request
asks = refl

all : pdu_specific plain request_all.header ≡ 0xFF
unfolding pdu_specific
all = refl

no_second_start : no_starts {c = plain} (expires ∷ arrives claim_10 ∷ runs ∷ expires ∷ []) ≡ true
unfolding no_starts
no_second_start = refl

start_address_claim_cancelled_example :
    (history plain own machine machine-IsInterpreter
      (starts 10
        ∷ runs
        ∷ arrives request_all
        ∷ runs
        ∷ expires
        ∷ arrives claim_10
        ∷ runs
        ∷ expires
        ∷ [])
      (at no_address 0 0 calm)).state
    ≡ no_address
start_address_claim_cancelled_example =
    start_address_claim_cancelled plain own machine machine-IsInterpreter 10 0 0 calm request_all
      (expires ∷ arrives claim_10 ∷ runs ∷ expires ∷ []) refl refl asks all no_second_start

-- Two nodes that claim the address 12.
abbrev rival : Name
rival = 2 ^ 63 + 9

abbrev rival_machine : Event → Sm (Claimer plain) → Sm (Claimer plain)
rival_machine = first_match (transition_table (claimer_env plain rival))

rival_machine-IsInterpreter :
    IsInterpreter (transition_table (claimer_env plain rival)) rival_machine
rival_machine-IsInterpreter = first_match-IsInterpreter (transition_table (claimer_env plain rival))

abbrev claims : Claimer plain
claims = record world { timer = some claim_timeout }

free_12 : name_at claims.table 12 ≡ none
unfolding insert new find set erase try_emplace same_name same_addr
free_12 = refl

abbrev contested : Network
contested = (insert claims.table own 12).0

contested_room : full contested ≡ false
unfolding full insert new find set erase try_emplace same_name same_addr
contested_room = refl

next_13 : find_address contested rival 12 ≡ 13
unfolding find_address search self_config_address insert new find set erase try_emplace same_name
    same_addr
next_13 = refl

free_13 : name_at contested (find_address contested rival 12) ≡ none
unfolding find_address search self_config_address insert new find set erase try_emplace same_name
    same_addr
free_13 = refl

contention_example :
    let r' = find_address contested rival 12 in
    let s =
      history plain own machine machine-IsInterpreter
        (arrives (make_address_claim plain rival 12) ∷ runs ∷ expires ∷ [])
        (at claiming 12 0 claims) in
    let t =
      history plain rival rival_machine rival_machine-IsInterpreter
        (arrives (make_address_claim plain own 12) ∷ runs ∷ expires ∷ [])
        (at claiming 12 0 claims) in
    Settled own 12 12 own s × Settled rival r' 12 own t × (r' ≢ 12)
contention_example =
    contention plain own rival (omega arith) (omega arith) (omega arith) machine rival_machine
      machine-IsInterpreter rival_machine-IsInterpreter 12 (omega arith) 0 0 claims claims refl refl
      refl free_12 free_12 contested_room (omega (arith, next_13)) free_13

-- Name 5 has claimed 12 too, and the wait is up before the event of its claim has run.
abbrev overtaken : Claimer plain
overtaken = record world {
  table = (insert claims.table 5 12).0;
  timer = some claim_timeout;
  posted = address_claim 5 12 ∷ [];
}

overtaken_room : full overtaken.table ≡ false
unfolding full insert new find set erase try_emplace same_name same_addr
overtaken_room = refl

overtaken_next : find_address overtaken.table own 12 ≡ 13
unfolding find_address search self_config_address insert new find set erase try_emplace same_name
    same_addr
overtaken_next = refl

overtaken_free : name_at overtaken.table (find_address overtaken.table own 12) ≡ none
unfolding find_address search self_config_address insert new find set erase try_emplace same_name
    same_addr
overtaken_free = refl

late_timeout_example :
    let s =
      history plain own machine machine-IsInterpreter
        (elapses ∷ runs ∷ handles ∷ [])
        (at claiming 12 0 overtaken) in
    (s.state ≡ has_address)
    × (s.has_address_address ≡ find_address overtaken.table own 12)
    × (s.world.timer ≡ some claim_timeout)
late_timeout_example =
    late_timeout plain own machine machine-IsInterpreter 12 0 overtaken 5 (omega arith)
      (omega arith) (omega arith) overtaken_room (omega (arith, overtaken_next)) overtaken_free refl
      refl refl
