-- ===== src/Membership/Validation.antt =====
-- node/membership/validation.py and the states of node/membership/models.py.
-- A text is its code points. `isdecimal` and `int` go by the decimal digits of Unicode 14.
use stopan.Prelude.{
  ℕ, zero, suc, ◌+◌, ◌-◌, ◌*◌, ltb, leb, ◌==◌, Bool, true, false, not, ◌&&◌, ◌||◌, List, [], ◌∷◌,
  map, Option, none, some, ◌≡◌, refl, if◌then◌else◌, length, take, drop, all, Text, codes, text_eq,
  strip, is_space,
}

pub data MemberState : Type 0 where
  unknown alive suspect dead left : MemberState
  unrecognized : ℕ → MemberState

-- `STATE_ORDER.get(state, 0)`
abbrev pub state_order : MemberState → ℕ
state_order unknown = 0
state_order alive = 1
state_order suspect = 2
state_order dead = 3
state_order left = 4
state_order (unrecognized n) = 0

abbrev pub is_alive : MemberState → Bool
is_alive alive = true
is_alive _ = false

abbrev pub is_suspect : MemberState → Bool
is_suspect suspect = true
is_suspect _ = false

abbrev pub is_dead : MemberState → Bool
is_dead dead = true
is_dead _ = false

unfoldable pub is_valid_state : MemberState → Bool
is_valid_state unknown = false
is_valid_state alive = true
is_valid_state suspect = true
is_valid_state dead = true
is_valid_state left = true
is_valid_state (unrecognized n) = false

pub record MemberEvent : Type 0 where
  pub node_id : Text
  pub address : Text
  pub incarnation : ℕ
  pub state : MemberState
  pub ts_ms : ℕ

pub record NodeInfo : Type 0 where
  pub node_id : Text
  pub address : Text
  pub incarnation : ℕ

unfoldable pub is_node_id_char : ℕ → Bool
is_node_id_char c = (leb b'0' c && leb c b'9') || (leb b'a' c && leb c b'f')

unfoldable pub is_valid_node_id : Text → Bool
unfolding strip is_node_id_char
is_valid_node_id node_id = let text = strip node_id in length text == 32 && all is_node_id_char text

-- The code points of the decimal digits zero; nine more digits follow each.
abbrev pub digit_zeros : List ℕ
digit_zeros =
    0x30 ∷ 0x660 ∷ 0x6f0 ∷ 0x7c0 ∷ 0x966 ∷ 0x9e6 ∷ 0xa66 ∷ 0xae6 ∷ 0xb66 ∷ 0xbe6 ∷ 0xc66 ∷ 0xce6
    ∷ 0xd66 ∷ 0xde6 ∷ 0xe50 ∷ 0xed0 ∷ 0xf20 ∷ 0x1040 ∷ 0x1090 ∷ 0x17e0 ∷ 0x1810 ∷ 0x1946 ∷ 0x19d0
    ∷ 0x1a80 ∷ 0x1a90 ∷ 0x1b50 ∷ 0x1bb0 ∷ 0x1c40 ∷ 0x1c50 ∷ 0xa620 ∷ 0xa8d0 ∷ 0xa900 ∷ 0xa9d0
    ∷ 0xa9f0 ∷ 0xaa50 ∷ 0xabf0 ∷ 0xff10 ∷ 0x104a0 ∷ 0x10d30 ∷ 0x11066 ∷ 0x110f0 ∷ 0x11136 ∷ 0x111d0
    ∷ 0x112f0 ∷ 0x11450 ∷ 0x114d0 ∷ 0x11650 ∷ 0x116c0 ∷ 0x11730 ∷ 0x118e0 ∷ 0x11950 ∷ 0x11c50
    ∷ 0x11d50 ∷ 0x11da0 ∷ 0x16a60 ∷ 0x16ac0 ∷ 0x16b50 ∷ 0x1d7ce ∷ 0x1d7d8 ∷ 0x1d7e2 ∷ 0x1d7ec
    ∷ 0x1d7f6 ∷ 0x1e140 ∷ 0x1e2f0 ∷ 0x1e950 ∷ 0x1fbf0 ∷ []

unfoldable pub digit_in : List ℕ → ℕ → Option ℕ
digit_in [] c = none
digit_in (z ∷ zs) c = if leb z c && ltb c (z + 10) then some (c - z) else digit_in zs c

-- `int(text)` of a text for which `text.isdecimal()` holds; `none` for any other text.
decimal_from : ℕ → Text → Option ℕ
unfolding digit_in
decimal_from n [] = some n
decimal_from n (c ∷ cs) = elim (digit_in digit_zeros c) [
  | none ↦ none
  | some d ↦ decimal_from (n * 10 + d) cs
]

unfoldable pub decimal : Text → Option ℕ
unfolding decimal_from
decimal [] = none
decimal (c ∷ cs) = decimal_from 0 (c ∷ cs)

-- `text.find(char)`
unfoldable pub find : ℕ → Text → Option ℕ
find x [] = none
find x (c ∷ cs) =
    let rest = find x cs in
    if c == x then some 0 else elim rest [ none ↦ none | some i ↦ some (suc i) ]

-- The parts before and after the last colon: `text.rsplit(":", 1)` of a text with a colon.
unfoldable pub rsplit_colon : Text → Option (Text × Text)
rsplit_colon [] = none
rsplit_colon (c ∷ cs) = elim (rsplit_colon cs) [
  | some (host, port) ↦ some (c ∷ host, port)
  | none ↦ if c == b':' then some ([], cs) else none
]

-- `text[i] != ":"`, at an index within the text.
abbrev colon_at : ℕ → Text → Bool
colon_at i [] = false
colon_at zero (c ∷ cs) = c == b':'
colon_at (suc i) (c ∷ cs) = colon_at i cs

-- The host and the port text of an address without surrounding white space.
unfoldable pub split_address : Text → Option (Text × Text)
unfolding find rsplit_colon
split_address [] = none
split_address (c ∷ cs) =
    let text = c ∷ cs in
    if c == b'['
    then elim (find b']' text) [
      | none ↦ none
      | some closing ↦
          if leb closing 1 || ltb (length text) (closing + 2) || not (colon_at (closing + 1) text)
          then none
          else some (take (closing - 1) (drop 1 text), drop (closing + 2) text)
    ]
    else rsplit_colon text

abbrev valid_port : Option ℕ → Bool
valid_port none = false
valid_port (some port) = ltb 0 port && leb port 65535

abbrev valid_host_port : Option (Text × Text) → Bool
valid_host_port none = false
valid_host_port (some ([], port_text)) = false
valid_host_port (some (c ∷ host, port_text)) = valid_port (decimal port_text)

unfoldable pub is_valid_address : Text → Bool
unfolding strip split_address decimal
is_valid_address address =
    let text = strip address in
    not (leb (length text) 0)
    && leb (length text) 255
    && all (λ c. not (is_space c || ltb c 32)) text
    && valid_host_port (split_address text)

unfoldable pub is_valid_nodeinfo : NodeInfo → Bool
unfolding is_valid_node_id is_valid_address
is_valid_nodeinfo node =
    is_valid_node_id node.node_id && is_valid_address node.address && leb 1 node.incarnation

unfoldable pub is_valid_member_event : MemberEvent → Bool
unfolding is_valid_node_id is_valid_address is_valid_state
is_valid_member_event event =
    is_valid_node_id event.node_id
    && is_valid_address event.address
    && leb 1 event.incarnation
    && is_valid_state event.state

-- The first `limit` events.
abbrev pub limited_gossip : List MemberEvent → ℕ → List MemberEvent
limited_gossip events limit = take limit events

unfoldable pub is_authorized_cluster_token : Text → Text → Bool
unfolding strip text_eq
is_authorized_cluster_token expected provided =
    if leb (length (strip expected)) 0 then false else text_eq provided expected

addresses :
    all is_valid_address (codes "[::1]:80" ∷ codes "node-1:50051" ∷ codes " a:1 " ∷ []) ≡ true
unfolding is_valid_address
addresses = refl

not_addresses :
    map is_valid_address (
      codes "node"
      ∷ codes ":80"
      ∷ codes "[]:1"
      ∷ codes "a:0"
      ∷ codes "a:65536"
      ∷ codes "a b:1"
      ∷ [])
    ≡ false ∷ false ∷ false ∷ false ∷ false ∷ false ∷ []
unfolding is_valid_address
not_addresses = refl
