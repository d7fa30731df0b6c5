-- ===== src/Billing/Examples.antt =====
-- internal/billing/usage.go: tests and witnesses with one usage of each kind.
use fa.Prelude.{◌≡◌, refl, true, false, [], ◌∷◌}
use fa.Prelude.Int.{pos}
use fa.Prelude.Text.{Text}
use fa.Billing.{
  Usage, efs, backup, Bills, Failures, item_of, save_failed, after_put, new_usage, delete_usage,
  send, resend, load_usages, resend_all, scan_failed_usage,
}
use fa.Billing.Kept.{has_item, send_all}
use fa.Billing.Resent.{restored}

abbrev e : Text
e = b'e' ∷ []

abbrev b : Text
b = b'b' ∷ []

abbrev disk_usage : Usage
disk_usage = efs (record {
  usage_id = e;
  used = 10;
  tenant_id = pos 1;
  file_system_id = e;
  cloud_account = e;
  start_time = pos 0;
  end_time = pos 60;
})

abbrev saved_files : Usage
saved_files =
    backup
      (record { usage_id = b; used = 20; tenant_id = pos 1; start_time = pos 0; end_time = pos 60 })

abbrev no_bills : Bills
no_bills = record { items = []; events = [] }

abbrev refused : Failures
refused = record { put = true; delete = false; save = false }

abbrev fine : Failures
fine = record { put = false; delete = false; save = false }

sent_at_last :
    send_all ((disk_usage, refused) ∷ (disk_usage, fine) ∷ []) no_bills
    ≡ record { items = []; events = disk_usage ∷ [] }
unfolding send_all send save_failed after_put new_usage delete_usage item_of
sent_at_last = refl

-- A backup that could not be sent is billed as a file system.
backup_as_efs : scan_failed_usage (send refused saved_files no_bills) ≡ restored saved_files ∷ []
unfolding scan_failed_usage send save_failed new_usage item_of load_usages resend_all resend
    restored
backup_as_efs = refl

nothing_kept : has_item b no_bills.items ≡ false
unfolding has_item
nothing_kept = refl
