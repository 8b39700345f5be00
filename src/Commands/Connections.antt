-- ===== src/Commands/Connections.antt =====
-- relay/social/management/commands/list_brand_connections.py: the active connections of a brand, as the
-- command prints them. An empty list is the warning that there are none.
use Prim.Native.Nat.{Ordering}
use Prim.Native.String.{compare}
use aleyacloud_relay.Base.{
  ℕ, Bool, true, false, ◌&&◌, String, List, map, none, some, find, select, exists, sort_by,
}
use aleyacloud_relay.Models.Social.{Channel, ChannelConnection}
use aleyacloud_relay.Store.{Db, Result, ok, raise, command_error}
use aleyacloud_relay.Commands.{is_active_brand, is_account_of}

pub record ConnectionLine : Type 0 where
  pub id : ℕ
  pub channel : Channel
  pub display_name : String

abbrev pub line : ChannelConnection → ConnectionLine
line c = record { id = c.id; channel = c.channel; display_name = c.display_name }

-- `order_by("channel", "display_name")` on the stored values of the channels.
abbrev pub channel_text : Channel → String
channel_text Channel.meta_facebook_page = "META_FACEBOOK_PAGE"
channel_text Channel.meta_instagram_business_account = "META_INSTAGRAM_BUSINESS_ACCOUNT"

abbrev pub in_order : ChannelConnection → ChannelConnection → Bool
in_order c d = elim (compare (channel_text c.channel) (channel_text d.channel)) [
  | Ordering.lt ↦ true
  | Ordering.gt ↦ false
  | Ordering.eq ↦ elim (compare c.display_name d.display_name) [ Ordering.gt ↦ false | _ ↦ true ]
]

-- `Command.handle`
unfoldable pub list_brand_connections :
    (workspace_slug brand_slug : String) → Db → Result (List ConnectionLine)
list_brand_connections workspace_slug brand_slug db =
    elim (find (is_active_brand workspace_slug brand_slug db) db.brands) [
      | none ↦ raise command_error
      | some b ↦ ok (
          map line (
            sort_by in_order (
              select
                (λ (c : ChannelConnection). exists (is_account_of b c) db.accounts && c.is_active)
                db.connections)))
    ]
