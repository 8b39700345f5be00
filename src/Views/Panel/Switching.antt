-- ===== src/Views/Panel/Switching.antt =====
-- What `PanelWorkspaceView.post` of relay/api/views.py answers with.
use aleyacloud_relay.Base.{List, select, elem}
use aleyacloud_relay.Models.Tenancy.{Brand}
use aleyacloud_relay.Store.{Db}
use aleyacloud_relay.Access.{RelayPrincipal}
use aleyacloud_relay.Views.Panel.{by_name}

listed_brands : RelayPrincipal → Db → List Brand
listed_brands p db = by_name (select (λ (b : Brand). elem b.id p.brand_ids) db.brands)
