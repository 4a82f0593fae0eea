-- ===== src/Realtime/Clients.antt =====
-- The open sockets of realtime.service.ts: `attach` with its handlers, and `broadcast`. A socket is a
-- number that names it; the set keeps the order of insertion.
pub mod Open
use charging_station_system.Prelude.{
  ℕ, Bool, true, false, not, Option, none, some, List, [], ◌∷◌, ◌++◌, map, ◌==◌, if◌then◌else◌,
  includes, filter_by, codes,
}
use charging_station_system.Schema.{Codes}
use charging_station_system.Realtime.Frame.{encode_text_frame}

-- A header is missing, a text, or a list of texts.
pub data Header : Type 0 where
  missing : Header
  single : Codes → Header
  several : List Codes → Header

pub record UpgradeRequest : Type 0 where
  pub socket : ℕ
  pub url : Option Codes
  pub key : Header
  pub protocol : Header

pub record RealtimeState : Type 0 where
  pub clients : List ℕ
  pub attached : Bool

-- What is done to sockets.
pub data SocketEffect : Type 0 where
  destroy : ℕ → SocketEffect
  write : ℕ → Codes → SocketEffect

pub data RealtimeEvent : Type 0 where
  attach_call : RealtimeEvent
  upgrade : UpgradeRequest → RealtimeEvent
  socket_closed socket_failed : ℕ → RealtimeEvent

-- `text.startsWith(prefix)`
abbrev pub has_prefix : Codes → Codes → Bool
has_prefix [] text = true
has_prefix (p ∷ ps) [] = false
has_prefix (p ∷ ps) (c ∷ cs) = if c == p then has_prefix ps cs else false

abbrev pub is_station_url : Option Codes → Bool
is_station_url none = false
is_station_url (some url) = has_prefix (codes "/ws/station") url

abbrev pub crlf : Codes
crlf = 13 ∷ 10 ∷ []

abbrev protocol_line : Header → Codes
protocol_line (single protocol) = crlf ++ (codes "Sec-WebSocket-Protocol: " ++ protocol)
protocol_line _ = []

-- `handshakeResponse`; `accept` is the digest of a key with the protocol's constant.
unfoldable pub handshake_response : (Codes → Codes) → UpgradeRequest → Codes → Codes
handshake_response accept request key =
    codes "HTTP/1.1 101 Switching Protocols"
    ++ (crlf
        ++ (codes "Upgrade: websocket"
            ++ (crlf
                ++ (codes "Connection: Upgrade"
                    ++ (crlf
                        ++ ((codes "Sec-WebSocket-Accept: " ++ accept key)
                            ++ (protocol_line request.protocol ++ (crlf ++ crlf))))))))

-- `clients.add`
abbrev pub add_client : ℕ → List ℕ → List ℕ
add_client s clients = if includes clients s then clients else clients ++ (s ∷ [])

-- `clients.delete`
abbrev pub delete_client : ℕ → List ℕ → List ℕ
delete_client s = filter_by (λ c. not (c == s))

module _ (accept : Codes → Codes) where
  -- The handler of `upgrade`.
  unfoldable pub on_upgrade : UpgradeRequest → List ℕ → List ℕ × List SocketEffect
  unfolding handshake_response
  on_upgrade request clients =
      if is_station_url request.url
      then elim request.key [
        | single key ↦ (
          add_client request.socket clients,
          write request.socket (handshake_response accept request key) ∷ [],
        )
        | _ ↦ (clients, destroy request.socket ∷ [])
      ]
      else (clients, destroy request.socket ∷ [])

  -- An event of the server, or a call of `attach`. No handler is registered before the first call of
  -- `attach`, and none by the later ones.
  unfoldable pub handle : RealtimeEvent → RealtimeState → RealtimeState × List SocketEffect
  unfolding on_upgrade
  handle attach_call s = (if s.attached then s else record s { attached = true }, [])
  handle (upgrade request) s =
      if s.attached
      then (let (clients, effects) = on_upgrade request s.clients in
          (record s { clients = clients }, effects))
      else (s, [])
  handle (socket_closed i) s = (record s { clients = delete_client i s.clients }, [])
  handle (socket_failed i) s = (record s { clients = delete_client i s.clients }, [])

-- `broadcast`, of the text's bytes; `destroyed` tells the sockets that are gone already.
unfoldable pub broadcast : (ℕ → Bool) → Codes → RealtimeState → List SocketEffect
unfolding encode_text_frame
broadcast destroyed text s =
    map (λ c. write c (encode_text_frame text)) (filter_by (λ c. not (destroyed c)) s.clients)

abbrev pub no_clients : RealtimeState
no_clients = record { clients = []; attached = false }
