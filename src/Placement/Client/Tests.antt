-- ===== src/Placement/Client/Tests.antt =====
-- A node of the small cluster, as the usage client reads it.
use rke2_lab.Base.{◌<>◌, ◌≡◌, refl, none, []}
use rke2_lab.Base.Int.{pos}
use rke2_lab.Py.Value.{obj, field, end}
use rke2_lab.Py.Effect.{ok}
use rke2_lab.Fake.{fake, runtime, usage, store}
use rke2_lab.Placement.Client.{UsageClient, send, node_capacity}
use rke2_lab.Placement.Client.Typed.{IsUsage, IsStorage, no_store, counted, node_capacity_typed}

usage-IsUsage : IsUsage (pos 20) (obj (field "data" (usage 20) end))
unfolding runtime
usage-IsUsage = record {
  envelope = _;
  answer = _;
  memory = _;
  is_object = refl;
  has_data = refl;
  has_memory = refl;
  has_available = refl;
}

store-IsStorage : IsStorage 500 (obj (field "data" (store 500) end))
unfolding runtime
store-IsStorage = record {
  envelope = _;
  list = _;
  is_object = refl;
  has_data = refl;
  stores = counted _ [] "images,rootdir" 500 0 500 refl refl refl refl refl no_store;
}

abbrev client : UsageClient
client = record {
  base = "https://pve/api2/json";
  username = "root@pam";
  password = "pw";
  ticket = "PVE:t";
  csrf = "csrf";
}

status_read :
    (send fake client "GET" ("/nodes/" <> ("pve01" <> "/status")) none []).0
    ≡ ok (200, obj (field "data" (usage 20) end))
unfolding runtime send
status_read = refl

storage_read :
    (send fake client "GET"
      ("/nodes/" <> ("pve01" <> "/storage"))
      none
      (send fake client "GET" ("/nodes/" <> ("pve01" <> "/status")) none []).1).0
    ≡ ok (200, obj (field "data" (store 500) end))
unfolding runtime send
storage_read = refl

node_capacity_typed_example :
    (node_capacity fake client "pve01" []).0
    ≡ ok (record { name = "pve01"; free_ram_bytes = pos 20; free_disk_bytes = pos 500 })
node_capacity_typed_example =
    node_capacity_typed fake client "pve01" [] (obj (field "data" (usage 20) end))
      (obj (field "data" (store 500) end)) (pos 20) 500 status_read usage-IsUsage storage_read
      store-IsStorage
