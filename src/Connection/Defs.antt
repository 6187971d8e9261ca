-- ===== src/Connection/Defs.antt =====
-- The class `j1939_connection`. `none` is undefined behaviour (the value of an empty std::optional,
-- a copy from behind a buffer) or the std::bad_function_call of a callback that is not set.
use jay.Base.{
  Bool, true, false, not, ◌&&◌, ◌||◌, if◌then◌else◌, Option, none, some, List, [], ◌∷◌, ◌++◌,
}
use jay.Types.{Address}
use jay.Name.{Name}
use jay.Header.Canary.{Canary}
use jay.Frame.{Frame}
use jay.Network.{Network, get_address}
use jay.Transport.{
  Tp, Error, cts_without_session, dt_without_session, eom_without_session, remote_abort,
}

-- The errors that reach on_error_, by their text.
pub data ConnError : Type 0 where
  open_failed bind_failed read_failed : ConnError
  socket_without_source_address without_source_address without_target_name : ConnError
  without_local_name destination_without_address : ConnError
  tp_error : Error → ConnError

-- The errors of the transport protocol that have the code operation_aborted.
abbrev pub is_aborted : Error → Bool
is_aborted cts_without_session = true
is_aborted dt_without_session = true
is_aborted eom_without_session = true
is_aborted (remote_abort reason) = true
is_aborted _ = false

module _ (c : Canary) where
  -- The socket is in `tp`: `tp.sent` is what it took, each frame with a call of on_send_ if that is
  -- set, and `tp.sends` counts the calls of its send. What on_error_ hears of a frame that the socket
  -- does not take is left out. `tp.delivered` is what was given to on_data_, which is the transport
  -- protocol's rx handler too, and `read` what was given to on_read_.
  pub record Connection : Type 0 where
    pub tp : Tp c
    pub network : Network
    pub local_name : Option Name
    pub target_name : Option Name
    pub reading : Bool
    pub read : List (Frame c)
    pub errors : List ConnError
    pub has_on_error : Bool
    pub has_on_read : Bool

module _ (c : Canary) where
  -- The constructor; the bus adapter starts with the address 0xFE, and the transport protocol gets
  -- its error handler at once. `tp.errors` is empty between two calls.
  unfoldable pub connect : Network → Option Name → Option Name → Connection c
  connect net own target = record {
    tp = record {
      sessions = [];
      bus_address = 0xFE;
      clock = 0;
      sends = 0;
      sent = [];
      errors = [];
      delivered = [];
      has_error_callback = true;
      has_rx_callback = false;
    };
    network = net;
    local_name = own;
    target_name = target;
    reading = false;
    read = [];
    errors = [];
    has_on_error = false;
    has_on_read = false;
  }

  -- on_error_(...), without a test of on_error_.
  unfoldable pub call_on_error : ConnError → Connection c → Option (Connection c × Bool)
  call_on_error e x =
      if x.has_on_error then some (record x { errors = x.errors ++ e ∷ [] }, false) else none

  -- The method on_error(what, ec); `aborted` says that ec is operation_aborted.
  unfoldable pub on_error : ConnError → Bool → Connection c → Connection c
  on_error e aborted x =
      if aborted || not x.has_on_error then x else record x { errors = x.errors ++ e ∷ [] }

  -- The errors that a call into the transport protocol reported, through its handler, on_error.
  unfoldable pub report_all : List Error → Connection c → Connection c
  unfolding on_error
  report_all [] x = x
  report_all (e ∷ es) x = report_all es (on_error (tp_error e) (is_aborted e) x)

  -- The state after a call into the transport protocol.
  unfoldable pub after_tp : Tp c → Connection c → Connection c
  after_tp t x = report_all t.errors (record x { tp = record t { errors = [] } })

  unfoldable pub set_local_name : Name → Connection c → Connection c
  set_local_name n x = record x { local_name = some n }

  unfoldable pub set_target_name : Name → Connection c → Connection c
  set_target_name n x = record x { target_name = some n }

  unfoldable pub on_data : Connection c → Connection c
  on_data x = record x { tp = record (x.tp) { has_rx_callback = true } }

  -- open(); whether the three calls of the CAN library succeed.
  unfoldable pub open_endpoint : Bool → Bool → Bool → Connection c → Connection c × Bool
  unfolding on_error
  open_endpoint has_index opens binds x =
      if has_index && opens
      then (if binds then (x, true) else (on_error bind_failed false x, false))
      else (on_error open_failed false x, false)

  -- start(), for the part that queues a read.
  unfoldable pub start : Connection c → Connection c
  start x = record x { reading = true }

  -- bus_adapter::source_address(sa)
  abbrev pub set_bus_address : Address → Connection c → Connection c
  set_bus_address a x = record x { tp = record (x.tp) { bus_address = a } }

  -- The address of a name in the connection's network.
  abbrev pub address_of : Connection c → Name → Address
  address_of x n = get_address x.network n
