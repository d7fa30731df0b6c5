-- ===== src/Billing.antt =====
-- internal/billing/usage.go, internal/storage/bill.go and scanFailedUsage of web/routers/server.go:
-- usages are sent to the billing service, kept in the database when that fails, and sent again. The
-- answers of the service and of the database are arguments. Identifiers are not empty.
pub mod Kept
pub mod Resent
pub mod Samples
mod Examples
use fa.Prelude.{ℕ, Bool, true, false, ◌&&◌, ◌||◌, List, [], ◌∷◌, ◌++◌, if◌then◌else◌}
use fa.Prelude.Int.{ℤ, pos, ltb_ℤ, int64, uint64}
use fa.Prelude.Text.{Text, eq_text}

pub record EfsUsage : Type 0 where
  pub usage_id : Text
  pub used : ℕ
  pub tenant_id : ℤ
  pub file_system_id : Text
  pub cloud_account : Text
  pub start_time : ℤ
  pub end_time : ℤ

pub record BackupUsage : Type 0 where
  pub usage_id : Text
  pub used : ℕ
  pub tenant_id : ℤ
  pub start_time : ℤ
  pub end_time : ℤ

pub data TransferType : Type 0 where
  download : TransferType
  cross_region : TransferType

-- A negative size stands for a transfer that is not billed.
pub record TransferUsage : Type 0 where
  pub usage_id : Text
  pub size : ℤ
  pub tenant_id : ℤ
  pub user_id : ℤ
  pub type_ : TransferType
  pub name : Text
  pub from : Text
  pub to : Text
  pub start_time : ℤ
  pub end_time : ℤ
  pub client_ip : Text

-- What a job of the queue carries, and what the service is told.
pub data Usage : Type 0 where
  efs : EfsUsage → Usage
  backup : BackupUsage → Usage
  transfer : TransferUsage → Usage

pub data UsageType : Type 0 where
  efs_usage : UsageType
  backup_usage : UsageType
  transfer_usage : UsageType

pub record UsageItem : Type 0 where
  pub usage_id : Text
  pub used : ℕ
  pub tenant_id : ℤ
  pub user_id : ℤ
  pub file_system_id : Text
  pub cloud_account : Text
  pub start_time : ℤ
  pub end_time : ℤ
  pub name : Text
  pub from : Text
  pub to : Text
  pub client_ip : Text
  pub usage_type : UsageType

-- The database's items, and the events that the service has taken, the last one first.
pub record Bills : Type 0 where
  pub items : List UsageItem
  pub events : List Usage

abbrev pub id_of : Usage → Text
id_of (efs u) = u.usage_id
id_of (backup u) = u.usage_id
id_of (transfer u) = u.usage_id

-- NewUsage: an item of the same identifier is updated, all but its type.
unfoldable pub new_usage : UsageItem → List UsageItem → List UsageItem
new_usage item [] = item ∷ []
new_usage item (old ∷ items) =
    let rest = new_usage item items in
    if eq_text old.usage_id item.usage_id
    then record item { usage_type = old.usage_type } ∷ items
    else old ∷ rest

-- DeleteUsage
unfoldable pub delete_usage : Text → List UsageItem → List UsageItem
delete_usage id [] = []
delete_usage id (old ∷ items) =
    let rest = delete_usage id items in if eq_text old.usage_id id then items else old ∷ rest

-- The item that is kept when a usage cannot be sent. That of a backup has the type of a file system's.
unfoldable pub item_of : Usage → UsageItem
item_of (efs u) = record {
  usage_id = u.usage_id;
  used = u.used;
  tenant_id = u.tenant_id;
  user_id = pos 0;
  file_system_id = u.file_system_id;
  cloud_account = u.cloud_account;
  start_time = u.start_time;
  end_time = u.end_time;
  name = [];
  from = [];
  to = [];
  client_ip = [];
  usage_type = efs_usage;
}
item_of (backup u) = record {
  usage_id = u.usage_id;
  used = u.used;
  tenant_id = u.tenant_id;
  user_id = pos 0;
  file_system_id = [];
  cloud_account = [];
  start_time = u.start_time;
  end_time = u.end_time;
  name = [];
  from = [];
  to = [];
  client_ip = [];
  usage_type = efs_usage;
}
item_of (transfer u) = record {
  usage_id = u.usage_id;
  used = uint64 u.size;
  tenant_id = u.tenant_id;
  user_id = u.user_id;
  file_system_id = [];
  cloud_account = [];
  start_time = u.start_time;
  end_time = u.end_time;
  name = u.name;
  from = u.from;
  to = u.to;
  client_ip = u.client_ip;
  usage_type = transfer_usage;
}

-- What fails in one attempt: the context is done or the service refuses, the deletion fails, the
-- saving fails.
pub record Failures : Type 0 where
  pub put : Bool
  pub delete : Bool
  pub save : Bool

unfoldable pub save_failed : Failures → Usage → Bills → Bills
unfolding new_usage item_of
save_failed failures u s =
    if failures.save then s else record s { items = new_usage (item_of u) s.items }

abbrev pub is_unbilled : Usage → Bool
is_unbilled (efs u) = false
is_unbilled (backup u) = false
is_unbilled (transfer u) = ltb_ℤ u.size (pos 0)

-- SendEfsUsage, SendBackupUsage and SendTransferUsage. A negative transfer is passed over unless the
-- context is done, which `put` then stands for.
unfoldable pub after_put : Failures → Usage → Bills → Bills
unfolding save_failed delete_usage
after_put failures u s =
    if failures.delete
    then save_failed failures u s
    else record s { items = delete_usage (id_of u) s.items }

unfoldable pub send : Failures → Usage → Bills → Bills
unfolding save_failed after_put
send failures u s =
    if failures.put
    then save_failed failures u s
    else if is_unbilled u
    then after_put failures u s
    else after_put failures u (record s { events = u ∷ s.events })

-- scanFailedUsage: the jobs for the items of each type, in the order of the scan.
unfoldable pub resend : UsageItem → Usage
resend item = elim item.usage_type [
  | efs_usage ↦ efs (record {
    usage_id = item.usage_id;
    used = item.used;
    tenant_id = item.tenant_id;
    file_system_id = item.file_system_id;
    cloud_account = item.cloud_account;
    start_time = item.start_time;
    end_time = item.end_time;
  })
  | backup_usage ↦ backup (record {
    usage_id = item.usage_id;
    used = item.used;
    tenant_id = item.tenant_id;
    start_time = item.start_time;
    end_time = item.end_time;
  })
  | transfer_usage ↦ transfer (record {
    usage_id = item.usage_id;
    size = int64 (pos item.used);
    tenant_id = item.tenant_id;
    user_id = item.user_id;
    type_ = download;
    name = item.name;
    from = item.from;
    to = item.to;
    start_time = item.start_time;
    end_time = item.end_time;
    client_ip = item.client_ip;
  })
]

abbrev pub same_type : UsageType → UsageType → Bool
same_type efs_usage efs_usage = true
same_type backup_usage backup_usage = true
same_type transfer_usage transfer_usage = true
same_type _ _ = false

-- LoadEfsUsages, LoadTransferUsage and LoadBackupUsages
unfoldable pub load_usages : UsageType → List UsageItem → List UsageItem
load_usages type [] = []
load_usages type (item ∷ items) =
    let rest = load_usages type items in
    if same_type item.usage_type type then item ∷ rest else rest

unfoldable pub resend_all : List UsageItem → List Usage
unfolding resend
resend_all [] = []
resend_all (item ∷ items) = resend item ∷ resend_all items

unfoldable pub scan_failed_usage : Bills → List Usage
unfolding load_usages resend_all
scan_failed_usage s =
    resend_all (load_usages efs_usage s.items)
    ++ (resend_all (load_usages transfer_usage s.items)
        ++ resend_all (load_usages backup_usage s.items))
