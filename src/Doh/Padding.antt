-- ===== src/Doh/Padding.antt =====
-- proxy/doh/padding.go.
pub mod Block
pub mod Header
pub mod Servfail
pub mod AnyId
use localdns_go.Prelude.{
  ℕ, ◌+◌, ◌-◌, ◌%◌, Bool, true, false, ◌||◌, not, Option, none, some, List, [], ◌∷◌, ◌++◌, length,
  replicate, Result, ok, err, ◌==◌, if◌then◌else◌,
}
use localdns_go.Prelude.Words.{Bytes}
use localdns_go.Doh.Message.{EdnsOption, Body, opt_resource, other_body, Resource, Message, Dns}

abbrev pub opt_resource_padding_code : ℕ
opt_resource_padding_code = 12

abbrev pub padding_block_size : ℕ
padding_block_size = 128

-- OPTION-CODE and OPTION-LENGTH
abbrev pub opt_padding_header_len : ℕ
opt_padding_header_len = 2 + 2

-- The block size is positive: Go would panic on 0.
unfoldable pub compute_padding_size : ℕ → ℕ → ℕ
compute_padding_size msg_len block_size =
    let extra_padding = opt_padding_header_len in
    let pad_size = block_size - (msg_len + extra_padding) % block_size in pad_size % block_size

unfoldable pub get_padding : ℕ → EdnsOption
unfolding compute_padding_size
get_padding msg_len = record {
  code = opt_resource_padding_code;
  payload = replicate (compute_padding_size msg_len padding_block_size) 0;
}

-- The slice that came in, or a new one: `doQuery` writes into what it gets.
pub data Padded : Type 0 where
  same_slice : Padded
  new_slice : Bytes → Padded

unfoldable pub body_options : {B : Type 0} → Body B → Option (List EdnsOption)
body_options (opt_resource options) = some options
body_options (other_body b) = none

pub later_or : Option (List EdnsOption) → Option (List EdnsOption) → Option (List EdnsOption)
later_or (some options) earlier = some options
later_or none earlier = earlier

unfoldable pub add_to_body : {B : Type 0} → EdnsOption → Body B → Body B
add_to_body o (opt_resource options) = opt_resource (options ++ o ∷ [])
add_to_body o (other_body b) = other_body b

module _ {H B : Type 0} where
  -- The search for `optRes`. The `break` in it ends the `switch` and not the loop, so the last OPT
  -- resource is the one that is kept.
  unfoldable pub last_opt : List (Resource H B) → Option (List EdnsOption)
  unfolding body_options later_or
  last_opt [] = none
  last_opt (r ∷ rs) = later_or (last_opt rs) (body_options r.body)

  pub add_here :
      Option (List EdnsOption)
      → EdnsOption
      → Resource H B
      → List (Resource H B)
      → List (Resource H B)
      → List (Resource H B)
  add_here (some later) o r rs changed = r ∷ changed
  add_here none o r rs changed = record r { body = add_to_body o r.body } ∷ rs

  -- `optRes.Options = append(optRes.Options, o)`, through the pointer into the message
  unfoldable pub append_option : EdnsOption → List (Resource H B) → List (Resource H B)
  unfolding add_to_body add_here last_opt
  append_option o [] = []
  append_option o (r ∷ rs) = add_here (last_opt rs) o r rs (append_option o rs)

unfoldable pub has_padding : List EdnsOption → Bool
has_padding [] = false
has_padding (o ∷ options) = o.code == opt_resource_padding_code || has_padding options

module _ {E Q H B : Type 0} (d : Dns E Q H B) where
  pub pack_new : Message Q H B → Result E Padded
  pack_new msg = elim (d.pack msg) [ err e ↦ err e | ok b ↦ ok (new_slice b) ]

  unfoldable pub with_option : EdnsOption → Message Q H B → Message Q H B
  with_option o msg = record msg { additionals = append_option o msg.additionals }

  pad_to_block : Message Q H B → Result E Padded
  pad_to_block msg = elim (d.pack msg) [
    | err e ↦ err e
    | ok compressed ↦ pack_new (with_option (get_padding (length compressed)) msg)
  ]

  with_opt : Message Q H B → H → Message Q H B
  with_opt msg h = record msg {
    additionals = msg.additionals ++ record { header = h; body = opt_resource [] } ∷ [];
  }

  pad_message : Option (List EdnsOption) → Message Q H B → Result E Padded
  pad_message (some options) msg = if has_padding options then ok same_slice else pad_to_block msg
  pad_message none msg = elim d.edns_header [ err e ↦ err e | ok h ↦ pad_to_block (with_opt msg h) ]

  -- `AddEdnsPadding`
  unfoldable pub add_edns_padding : Bytes → Result E Padded
  unfolding pad_message pad_to_block pack_new with_opt with_option last_opt append_option
      has_padding get_padding
  add_edns_padding raw = elim (d.unpack raw) [
    | err e ↦ err e
    | ok msg ↦ pad_message (last_opt msg.additionals) msg
  ]

-- `Servfail` of proxy/doh/doh.go, and `tryServfail`: `none` is the nil slice.
unfoldable pub rcode_server_failure : ℕ
rcode_server_failure = 2

module _ {E Q H B : Type 0} (d : Dns E Q H B) where
  unfoldable pub servfail_message : Message Q H B → Message Q H B
  servfail_message msg = record msg {
    is_response = true;
    recursion_available = true;
    rcode = rcode_server_failure;
    additionals = [];
  }

  unfoldable pub servfail : Bytes → Result E Bytes
  servfail q = elim (d.unpack q) [ err e ↦ err e | ok msg ↦ d.pack (servfail_message msg) ]

  unfoldable pub try_servfail : Bytes → Option Bytes
  unfolding servfail
  try_servfail q = elim (servfail q) [ err e ↦ none | ok b ↦ some b ]
