-- ===== src/Billing/Resent.antt =====
-- internal/billing/usage.go and scanFailedUsage of web/routers/server.go: what a usage that could not be
-- sent becomes when it is sent again.
use fa.Prelude.{
  ◌≡◌, refl, ap, ◌∙◌, inl, inr, Bool, true, false, List, [], ◌∷◌, ◌++◌, if◌then◌else◌, Bool-cases,
  arith,
}
use fa.Prelude.Int.{FitsInt64, int64-uint64}
use fa.Prelude.Text.{eq_text}
use fa.Billing.{
  download, Usage, efs, backup, transfer, UsageType, UsageItem, Bills, Failures, id_of, new_usage,
  item_of, save_failed, send, resend, same_type, load_usages, resend_all,
}
use fa.Billing.Kept.{has_item}

-- A usage of a file system comes back as it was. A transfer comes back as a download,
-- and a backup as a usage of a file system without a name.
unfoldable pub restored : Usage → Usage
restored (efs u) = efs u
restored (backup u) = efs (record {
  usage_id = u.usage_id;
  used = u.used;
  tenant_id = u.tenant_id;
  file_system_id = [];
  cloud_account = [];
  start_time = u.start_time;
  end_time = u.end_time;
})
restored (transfer u) = transfer (record u { type_ = download })

abbrev pub SizeFits : Usage → Type 0
SizeFits (transfer u) = FitsInt64 u.size
SizeFits _ = Unit

resend-item_of : (u : Usage) → SizeFits u → resend (item_of u) ≡ restored u
unfolding resend item_of restored
resend-item_of (efs u) fits = refl
resend-item_of (backup u) fits = refl
resend-item_of (transfer u) fits =
    ap (λ n. transfer (record u { type_ = download; size = n })) (int64-uint64 u.size fits)

new_usage-fresh :
    (item : UsageItem) (items : List UsageItem)
    → has_item item.usage_id items ≡ false
    → new_usage item items ≡ items ++ item ∷ []
unfolding new_usage has_item
new_usage-fresh item [] fresh = refl
new_usage-fresh item (old ∷ items) fresh =
    let other : eq_text old.usage_id item.usage_id ≡ false = ground arith in
    let rest : has_item item.usage_id items ≡ false = ground arith in
    rw (other, new_usage-fresh item items rest) refl

load_usages-last :
    (type : UsageType) (item : UsageItem) (items : List UsageItem)
    → load_usages type (items ++ item ∷ [])
      ≡ load_usages type items ++ (if same_type item.usage_type type then item ∷ [] else [])
unfolding load_usages
load_usages-last type item [] = refl
load_usages-last type item (old ∷ items) = elim (Bool-cases (same_type old.usage_type type)) [
  | inl same ↦ rw (same, load_usages-last type item items) refl
  | inr other ↦ rw (other, load_usages-last type item items) refl
]

resend_all-append :
    (xs ys : List UsageItem) → resend_all (xs ++ ys) ≡ resend_all xs ++ resend_all ys
unfolding resend_all
resend_all-append [] ys = refl
resend_all-append (x ∷ xs) ys = ap (◌∷◌ (resend x)) (resend_all-append xs ys)

same_id : (u : Usage) → (item_of u).usage_id ≡ id_of u
unfolding item_of
same_id (efs u) = refl
same_id (backup u) = refl
same_id (transfer u) = refl

-- A usage that cannot be sent, and has no item yet, its size an int64 if it is a transfer, is the last job of the next scan of its item's type,
-- as `restored` says, and it changes nothing else of that scan or of those of the other types.
pub send-resend_all :
    (type : UsageType) (failures : Failures) (u : Usage) (s : Bills)
    → SizeFits u
    → failures.put ≡ true
    → failures.save ≡ false
    → has_item (id_of u) s.items ≡ false
    → resend_all (load_usages type (send failures u s).items)
      ≡ resend_all (load_usages type s.items)
        ++ (if same_type (item_of u).usage_type type then restored u ∷ [] else [])
unfolding send save_failed resend_all
send-resend_all type failures u s fits refused saved fresh =
    let item = item_of u in
    let absent_ : has_item item.usage_id s.items ≡ false =
      ap (λ i. has_item i s.items) (same_id u) ∙ fresh in
    rw
      (
        send,
        refused,
        save_failed,
        saved,
        new_usage-fresh item s.items absent_,
        load_usages-last type item s.items,
        resend_all-append (load_usages type s.items)
            (if same_type item.usage_type type then item ∷ [] else []),
      )
      (ap (λ l. resend_all (load_usages type s.items) ++ l) (one (same_type item.usage_type type)))
  where
    one :
        (b : Bool)
        → resend_all (if b then item_of u ∷ [] else []) ≡ (if b then restored u ∷ [] else [])
    one true = ap (λ v. v ∷ []) (resend-item_of u fits)
    one false = refl
