-- ===== src/Server/Ready.antt =====
-- What holds of the server of server/mod.rs between two events.
use servoxide.Prelude.{ℕ, ◌^◌, ◌≡◌, ◌≤◌, ◌<◌, List, ◌∷◌, some, All, get_elem?, length, drop, panics}
use servoxide.Text.{Bytes}
use servoxide.Dict.{Dict, nat_eq}
use servoxide.Dict.Unique.{Unique}
use servoxide.Dict.AllValues.{AllValues}
use servoxide.Config.Types.{ServerConfig}
use servoxide.Http.Request.Types.{RequestHead, HeadStatus, BodyMode}
use servoxide.Http.Request.Head.{parse_head}
use servoxide.Http.Request.Body.{body_mode}
use servoxide.Http.Request.Chunked.{decode_chunked}
use servoxide.Server.Select.{Address}
use servoxide.Server.Select.Laws.{IsIndex}
use servoxide.Server.State.{Client, System, State}

-- An address has a first server, and each of its servers is one of the configuration.
pub record IsAddress (servers : List ServerConfig) (a : Address) : Type 0 where
  pub default : ℕ
  pub others : List ℕ
  pub servers_are : a.servers ≡ default ∷ others
  pub in_bounds : All (IsIndex servers) a.servers

-- A connection belongs to one of `n` addresses; no more has been written than there is to write,
-- and the request that is being answered lies in the buffer.
pub record IsClient (n : ℕ) (c : Client) : Type 0 where
  pub addr_in : c.addr_idx < n
  pub written_in : c.written ≤ length c.outbuf
  pub pending_in : c.pending_len ≤ length c.inbuf
  pub inbuf_small : length c.inbuf < 2 ^ 63

pub record AreReady (servers : List ServerConfig) (addresses : List Address) (listeners : Dict ℕ ℕ)
    (clients : Dict ℕ Client) : Type 0 where
  pub addresses_are : All (IsAddress servers) addresses
  pub listeners_are : AllValues (λ (i : ℕ). i < length addresses) listeners
  pub clients_unique : Unique clients
  pub clients_are : AllValues (IsClient (length addresses)) clients

abbrev pub IsReady : (sys : System) → State sys → Type 0
IsReady sys st = AreReady st.servers st.addresses st.listener_addr st.clients

-- The chunked body in the buffer makes the decoder panic, under the limit of a configured server.
pub record Chokes (servers : List ServerConfig) (buf : Bytes) : Type 0 where
  pub head : RequestHead
  pub server : ServerConfig
  pub index : ℕ
  pub head_is : parse_head buf ≡ HeadStatus.ok head
  pub server_is : get_elem? servers index ≡ some server
  pub mode_is : body_mode head ≡ some BodyMode.chunked
  pub panic : decode_chunked (drop head.head_len buf) server.client_max_body_size ≡ panics
