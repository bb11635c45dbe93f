-- ===== src/Endpoint/Open.antt =====
-- `Open` of src/NetworkEndpoint.cpp and src/Posix/NetworkEndpointPosix.cpp.
use system_abstractions.Base.{
  ℕ, Bool, true, false, List, [], ◌∷◌, Option, none, some, if◌then◌else◌,
}
use system_abstractions.Endpoint.State.{
  Message, Mode, connection, multicast_send, multicast_receive, create_socket_failed,
  interface_failed, reuse_failed, bind_failed, membership_failed, getsockname_failed, signal_failed,
  listen_failed, opened, calls_bind, adds_membership, signal_clear, reports, at_top, Endpoint, note,
  close, close_socket,
}

-- An entry of the list of `getifaddrs`: whether the interface is up, and its address, where it has
-- one, with whether that is an IPv4 address.
pub record Interface : Type 0 where
  pub is_up : Bool
  pub interface_address : Option (Bool × ℕ)

-- `GetInterfaceAddresses`, where `getifaddrs` succeeds.
unfoldable pub addresses_of : List Interface → List ℕ
addresses_of [] = []
addresses_of (i ∷ is) =
    if i.is_up
    then elim i.interface_address [
      | none ↦ addresses_of is
      | some (is_inet, a) ↦ if is_inet then a ∷ addresses_of is else addresses_of is
    ]
    else addresses_of is

unfoldable pub get_interface_addresses : Option (List Interface) → List ℕ
get_interface_addresses none = []
get_interface_addresses (some is) = addresses_of is

-- What the operating system answers in `Impl::Open`.
pub record OpenAnswers : Type 0 where
  pub socket : Option ℕ
  pub interface_set : Bool
  pub reuse_set : Bool
  pub bind_succeeds : Bool
  pub interfaces : Option (List Interface)
  pub membership_added : ℕ → Bool
  -- the port of `getsockname`
  pub bound_port : Option ℕ
  pub signal_works : Bool
  pub listen_succeeds : Bool

-- A failure that is reported, and closes the socket by `Close(false)`.
abbrev pub fail : Endpoint → Message → Endpoint × Bool
fail e m = (close_socket (note (reports 10 m) e), false)

-- The loop over the interfaces.
unfoldable pub add_memberships : OpenAnswers → List ℕ → Endpoint → Endpoint × Bool
add_memberships os [] e = (e, true)
add_memberships os (a ∷ rest) e =
    let more = add_memberships os rest (note (adds_membership e.group_address a) e) in
    if os.membership_added a
    then more
    else fail (note (adds_membership e.group_address a) e) membership_failed

unfoldable pub learn_port : OpenAnswers → Endpoint → Endpoint × Bool
learn_port os e = elim os.bound_port [
  | none ↦ fail e getsockname_failed
  | some p ↦ (record e { port = p }, true)
]

-- The address to bind: INADDR_ANY for a receiver of multicasts.
abbrev pub address_to_bind : Endpoint → ℕ
address_to_bind e = elim e.mode [ multicast_receive ↦ 0 | _ ↦ e.local_address ]

unfoldable pub after_bind : OpenAnswers → Endpoint → Endpoint × Bool
after_bind os e = elim e.mode [
  | multicast_receive ↦ add_memberships os (get_interface_addresses os.interfaces) e
  | _ ↦ learn_port os e
]

unfoldable pub bind_local : OpenAnswers → Endpoint → Endpoint × Bool
bind_local os e =
    if os.bind_succeeds
    then after_bind os (note (calls_bind (address_to_bind e) e.port) e)
    else fail (note (calls_bind (address_to_bind e) e.port) e) bind_failed

-- The part of `Impl::Open` that depends on the mode.
unfoldable pub configure : OpenAnswers → Endpoint → Endpoint × Bool
configure os e = elim e.mode [
  | multicast_send ↦ if os.interface_set then (e, true) else fail e interface_failed
  | multicast_receive ↦ if os.reuse_set then bind_local os e else fail e reuse_failed
  | _ ↦ bind_local os e
]

-- The end of `Impl::Open`: the thread is started.
unfoldable pub start_processor : Endpoint → Endpoint
start_processor e = record (note (reports 0 opened) e) {
  processor_stop = false;
  place = at_top;
  wait = true;
}

unfoldable pub listen_or_not : OpenAnswers → Endpoint → Endpoint × Bool
listen_or_not os e = elim e.mode [
  | connection ↦
      if os.listen_succeeds
      then (start_processor e, true)
      else (note (reports 10 listen_failed) e, false)
  | _ ↦ (start_processor e, true)
]

-- From the signal on: a failure here does not close the socket.
unfoldable pub activate : OpenAnswers → Endpoint → Endpoint × Bool
activate os e =
    if os.signal_works
    then listen_or_not os (note signal_clear e)
    else (note (reports 10 signal_failed) e, false)

-- `Impl::Open` behind its call of `Close`.
unfoldable pub open_socket : OpenAnswers → Endpoint → Endpoint × Bool
open_socket os e = elim os.socket [
  | none ↦ (note (reports 10 create_socket_failed) (record e { sock = none }), false)
  | some s ↦
      let (e', done) = configure os (record e { sock = some s }) in
      if done then activate os e' else (e', false)
]

-- `NetworkEndpoint::Open`: `none` where it waits for the thread of before.
unfoldable pub open_endpoint : Endpoint → Mode → ℕ → ℕ → ℕ → OpenAnswers → Option (Endpoint × Bool)
open_endpoint e mode local_address group_address port os =
    elim (close (record e {
      mode = mode;
      local_address = local_address;
      group_address = group_address;
      port = port;
    })) [ none ↦ none | some e' ↦ some (open_socket os e') ]
