-- ===== src/Api/DeepCopy/Structs/Lists.antt =====
-- api/v1alpha1/zz_generated.deepcopy.go: the lists of resources.
use minio_bucket_controller.Base.{refl, Option}
use minio_bucket_controller.Api.Meta.{Condition, ObjectMeta}
use minio_bucket_controller.Api.DeepCopy.Memory.{
  buckets_cell, providers_cell, accounts_cell, Memory, Copy,
}
use minio_bucket_controller.Api.DeepCopy.View.{
  view_bucket, view_provider, view_account, view_list, view_items, buckets_of, providers_of,
  accounts_of,
}
use minio_bucket_controller.Api.DeepCopy.Copies.{
  copy_items, bucket_into, provider_into, account_into, bucket_list_into, provider_list_into,
  account_list_into,
}
use minio_bucket_controller.Api.DeepCopy.Deep.{IsLocal, IsDeep, bind-some}
use minio_bucket_controller.Api.DeepCopy.Deep.Struct.{two-Copied}
use minio_bucket_controller.Api.DeepCopy.Parts.{view_items-IsLocal, copy_items-IsDeep}
use minio_bucket_controller.Api.DeepCopy.Structs.{
  DeepLaws, bucket-IsLocal, bucket-IsDeep, provider-IsLocal, provider-IsDeep, account-IsLocal,
  account-IsDeep,
}

module _ {M : Type 0} where
  module _ (view_meta : Memory M → M → Option ObjectMeta) (copy_meta : M → Copy M M)
      (copy_condition : Condition → Condition)
      (laws : DeepLaws view_meta copy_meta copy_condition) where
    -- The lists, with the struct of their metadata, which is not of the repository either.
    module _ {L W : Type 0} (view_list_meta : Memory M → L → Option W)
        (copy_list_meta : L → Copy M L) (list_local : IsLocal view_list_meta)
        (list_deep : IsDeep view_list_meta copy_list_meta) where
      pub bucket_list-IsLocal :
          IsLocal (view_list view_list_meta buckets_of (view_bucket view_meta))
      bucket_list-IsLocal m m' l v agree e =
          let (d, f, e') = bind-some (view_list_meta m l.metadata) _ v e in
          let (vs, g, h) =
            bind-some (view_items buckets_of (view_bucket view_meta) m l.items) _ v e' in
          rw
            (
              list_local m m' l.metadata d agree f,
              view_items-IsLocal buckets_of buckets_cell refl (λ ss. refl) (view_bucket view_meta)
                  (bucket_into copy_meta copy_condition)
                  (bucket-IsLocal view_meta copy_meta copy_condition laws) m m' l.items vs agree g,
            )
            h

      pub bucket_list-IsDeep :
          IsDeep
            (view_list view_list_meta buckets_of (view_bucket view_meta))
            (bucket_list_into copy_meta copy_condition copy_list_meta)
      bucket_list-IsDeep m l v e =
          let (d, f, e') = bind-some (view_list_meta m l.metadata) _ v e in
          let (vs, g, h) =
            bind-some (view_items buckets_of (view_bucket view_meta) m l.items) _ v e' in
          two-Copied view_list_meta (view_items buckets_of (view_bucket view_meta))
            (view_list view_list_meta buckets_of (view_bucket view_meta)) copy_list_meta
            (copy_items buckets_of buckets_cell (bucket_into copy_meta copy_condition))
            (λ d items. record { metadata = d; items = items }) m l.metadata l.items d vs v
            (view_items-IsLocal buckets_of buckets_cell refl (λ ss. refl) (view_bucket view_meta)
              (bucket_into copy_meta copy_condition)
              (bucket-IsLocal view_meta copy_meta copy_condition laws))
            list_deep
            (λ m e.
              copy_items-IsDeep buckets_of buckets_cell refl (λ ss. refl) (view_bucket view_meta)
                (bucket_into copy_meta copy_condition)
                (bucket-IsLocal view_meta copy_meta copy_condition laws)
                (bucket-IsDeep view_meta copy_meta copy_condition laws) m l.items vs e)
            f g (λ m d items x y. rw (x, y) h)

      pub provider_list-IsLocal :
          IsLocal (view_list view_list_meta providers_of (view_provider view_meta))
      provider_list-IsLocal m m' l v agree e =
          let (d, f, e') = bind-some (view_list_meta m l.metadata) _ v e in
          let (vs, g, h) =
            bind-some (view_items providers_of (view_provider view_meta) m l.items) _ v e' in
          rw
            (
              list_local m m' l.metadata d agree f,
              view_items-IsLocal providers_of providers_cell refl (λ ss. refl)
                  (view_provider view_meta) (provider_into copy_meta copy_condition)
                  (provider-IsLocal view_meta copy_meta copy_condition laws) m m' l.items vs agree
                  g,
            )
            h

      pub provider_list-IsDeep :
          IsDeep
            (view_list view_list_meta providers_of (view_provider view_meta))
            (provider_list_into copy_meta copy_condition copy_list_meta)
      provider_list-IsDeep m l v e =
          let (d, f, e') = bind-some (view_list_meta m l.metadata) _ v e in
          let (vs, g, h) =
            bind-some (view_items providers_of (view_provider view_meta) m l.items) _ v e' in
          two-Copied view_list_meta (view_items providers_of (view_provider view_meta))
            (view_list view_list_meta providers_of (view_provider view_meta)) copy_list_meta
            (copy_items providers_of providers_cell (provider_into copy_meta copy_condition))
            (λ d items. record { metadata = d; items = items }) m l.metadata l.items d vs v
            (view_items-IsLocal providers_of providers_cell refl (λ ss. refl)
              (view_provider view_meta) (provider_into copy_meta copy_condition)
              (provider-IsLocal view_meta copy_meta copy_condition laws))
            list_deep
            (λ m e.
              copy_items-IsDeep providers_of providers_cell refl (λ ss. refl)
                (view_provider view_meta) (provider_into copy_meta copy_condition)
                (provider-IsLocal view_meta copy_meta copy_condition laws)
                (provider-IsDeep view_meta copy_meta copy_condition laws) m l.items vs e)
            f g (λ m d items x y. rw (x, y) h)

      pub account_list-IsLocal :
          IsLocal (view_list view_list_meta accounts_of (view_account view_meta))
      account_list-IsLocal m m' l v agree e =
          let (d, f, e') = bind-some (view_list_meta m l.metadata) _ v e in
          let (vs, g, h) =
            bind-some (view_items accounts_of (view_account view_meta) m l.items) _ v e' in
          rw
            (
              list_local m m' l.metadata d agree f,
              view_items-IsLocal accounts_of accounts_cell refl (λ ss. refl)
                  (view_account view_meta) (account_into copy_meta copy_condition)
                  (account-IsLocal view_meta copy_meta copy_condition laws) m m' l.items vs agree g,
            )
            h

      pub account_list-IsDeep :
          IsDeep
            (view_list view_list_meta accounts_of (view_account view_meta))
            (account_list_into copy_meta copy_condition copy_list_meta)
      account_list-IsDeep m l v e =
          let (d, f, e') = bind-some (view_list_meta m l.metadata) _ v e in
          let (vs, g, h) =
            bind-some (view_items accounts_of (view_account view_meta) m l.items) _ v e' in
          two-Copied view_list_meta (view_items accounts_of (view_account view_meta))
            (view_list view_list_meta accounts_of (view_account view_meta)) copy_list_meta
            (copy_items accounts_of accounts_cell (account_into copy_meta copy_condition))
            (λ d items. record { metadata = d; items = items }) m l.metadata l.items d vs v
            (view_items-IsLocal accounts_of accounts_cell refl (λ ss. refl) (view_account view_meta)
              (account_into copy_meta copy_condition)
              (account-IsLocal view_meta copy_meta copy_condition laws))
            list_deep
            (λ m e.
              copy_items-IsDeep accounts_of accounts_cell refl (λ ss. refl) (view_account view_meta)
                (account_into copy_meta copy_condition)
                (account-IsLocal view_meta copy_meta copy_condition laws)
                (account-IsDeep view_meta copy_meta copy_condition laws) m l.items vs e)
            f g (λ m d items x y. rw (x, y) h)
