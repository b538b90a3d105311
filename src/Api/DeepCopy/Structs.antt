-- ===== src/Api/DeepCopy/Structs.antt =====
-- api/v1alpha1/zz_generated.deepcopy.go: the structs of the API, part by part.
pub mod Lists
use minio_bucket_controller.Base.{◌≡◌, refl, Option}
use minio_bucket_controller.Api.Meta.{Condition, ObjectMeta}
use minio_bucket_controller.Api.DeepCopy.Memory.{
  buckets_cell, providers_cell, accounts_cell, Memory, Copy,
}
use minio_bucket_controller.Api.DeepCopy.View.{
  view_text, view_map, view_conditions, view_bucket_spec, view_bucket_status, view_provider_status,
  view_account_status, view_bucket, view_provider, view_account, view_list, view_items, buckets_of,
  providers_of, accounts_of,
}
use minio_bucket_controller.Api.DeepCopy.Copies.{
  copy_text, copy_map, copy_conditions, copy_items, bucket_spec_into, bucket_status_into,
  provider_status_into, account_status_into, bucket_into, provider_into, account_into,
  bucket_list_into, provider_list_into, account_list_into,
}
use minio_bucket_controller.Api.DeepCopy.Deep.{IsLocal, IsDeep, bind-some}
use minio_bucket_controller.Api.DeepCopy.Deep.Struct.{one-Copied, two-Copied, three-Copied}
use minio_bucket_controller.Api.DeepCopy.Parts.{
  view_text-IsLocal, copy_text-IsDeep, view_map-IsLocal, copy_map-IsDeep, view_conditions-IsLocal,
  copy_conditions-IsDeep, view_items-IsLocal, copy_items-IsDeep,
}

-- What is relied on of the code that is not of the repository: the copies of metav1.ObjectMeta and
-- metav1.Condition are deep.
pub record DeepLaws {M : Type 0} (view_meta : Memory M → M → Option ObjectMeta)
    (copy_meta : M → Copy M M) (copy_condition : Condition → Condition) : Type 0 where
  pub view_meta-IsLocal : IsLocal view_meta
  pub copy_meta-IsDeep : IsDeep view_meta copy_meta
  pub copy_condition_lem : (c : Condition) → copy_condition c ≡ c

module _ {M : Type 0} where
  bucket_spec-IsLocal : IsLocal {M = M} view_bucket_spec
  bucket_spec-IsLocal m m' s v agree e =
      let (n, f, e') = bind-some (view_text m s.secret_name) _ v e in
      let (t, g, h) = bind-some (view_map m s.secret_template) _ v e' in
      rw
        (
          view_text-IsLocal m m' s.secret_name n agree f,
          view_map-IsLocal m m' s.secret_template t agree g,
        )
        h

  bucket_spec-IsDeep : IsDeep {M = M} view_bucket_spec bucket_spec_into
  bucket_spec-IsDeep m s v e =
      let (n, f, e') = bind-some (view_text m s.secret_name) _ v e in
      let (t, g, h) = bind-some (view_map m s.secret_template) _ v e' in
      two-Copied view_text view_map view_bucket_spec copy_text copy_map
        (λ n t. record s { secret_name = n; secret_template = t }) m s.secret_name s.secret_template
        n t v view_map-IsLocal copy_text-IsDeep (λ m e. copy_map-IsDeep m s.secret_template t e) f g
        (λ m n t x y. rw (x, y) h)

  bucket_status-IsLocal : IsLocal {M = M} view_bucket_status
  bucket_status-IsLocal m m' s v agree e =
      let (u, f, e') = bind-some (view_text m s.endpoint) _ v e in
      let (n, g, e'') = bind-some (view_text m s.secret_name) _ v e' in
      let (cs, h, i) = bind-some (view_conditions m s.conditions) _ v e'' in
      rw
        (
          view_text-IsLocal m m' s.endpoint u agree f,
          view_text-IsLocal m m' s.secret_name n agree g,
          view_conditions-IsLocal m m' s.conditions cs agree h,
        )
        i

  account_status-IsLocal : IsLocal {M = M} view_account_status
  account_status-IsLocal m m' s v agree e =
      let (n, f, e') = bind-some (view_text m s.secret_name) _ v e in
      let (cs, g, h) = bind-some (view_conditions m s.conditions) _ v e' in
      rw
        (
          view_text-IsLocal m m' s.secret_name n agree f,
          view_conditions-IsLocal m m' s.conditions cs agree g,
        )
        h

  provider_status-IsLocal : IsLocal {M = M} view_provider_status
  provider_status-IsLocal m m' s v agree e =
      let (cs, f, g) = bind-some (view_conditions m s.conditions) _ v e in
      rw (view_conditions-IsLocal m m' s.conditions cs agree f) g

  module _ (view_meta : Memory M → M → Option ObjectMeta) (copy_meta : M → Copy M M)
      (copy_condition : Condition → Condition)
      (laws : DeepLaws view_meta copy_meta copy_condition) where
    conditions-IsDeep : IsDeep {M = M} view_conditions (copy_conditions copy_condition)
    conditions-IsDeep = copy_conditions-IsDeep copy_condition laws.copy_condition_lem

    bucket_status-IsDeep : IsDeep {M = M} view_bucket_status (bucket_status_into copy_condition)
    bucket_status-IsDeep m s v e =
        let (u, f, e') = bind-some (view_text m s.endpoint) _ v e in
        let (n, g, e'') = bind-some (view_text m s.secret_name) _ v e' in
        let (cs, h, i) = bind-some (view_conditions m s.conditions) _ v e'' in
        three-Copied view_text view_text view_conditions view_bucket_status copy_text copy_text
          (copy_conditions copy_condition)
          (λ u n cs. record s { endpoint = u; secret_name = n; conditions = cs }) m s.endpoint
          s.secret_name s.conditions u n cs v view_text-IsLocal view_conditions-IsLocal
          copy_text-IsDeep (λ m e. copy_text-IsDeep m s.secret_name n e)
          (λ m e. conditions-IsDeep m s.conditions cs e) f g h (λ m u n cs x y z. rw (x, y, z) i)

    account_status-IsDeep : IsDeep {M = M} view_account_status (account_status_into copy_condition)
    account_status-IsDeep m s v e =
        let (n, f, e') = bind-some (view_text m s.secret_name) _ v e in
        let (cs, g, h) = bind-some (view_conditions m s.conditions) _ v e' in
        two-Copied view_text view_conditions view_account_status copy_text
          (copy_conditions copy_condition) (λ n cs. record s { secret_name = n; conditions = cs }) m
          s.secret_name s.conditions n cs v view_conditions-IsLocal copy_text-IsDeep
          (λ m e. conditions-IsDeep m s.conditions cs e) f g (λ m n cs x y. rw (x, y) h)

    provider_status-IsDeep :
        IsDeep {M = M} view_provider_status (provider_status_into copy_condition)
    provider_status-IsDeep m s v e =
        let (cs, f, g) = bind-some (view_conditions m s.conditions) _ v e in
        one-Copied view_conditions view_provider_status (copy_conditions copy_condition)
          (λ cs. record s { conditions = cs }) m s.conditions cs v conditions-IsDeep f
          (λ m cs x. rw x g)

    pub bucket-IsLocal : IsLocal (view_bucket view_meta)
    bucket-IsLocal m m' b v agree e =
        let (d, f, e') = bind-some (view_meta m b.metadata) _ v e in
        let (s, g, e'') = bind-some (view_bucket_spec m b.spec) _ v e' in
        let (t, h, i) = bind-some (view_bucket_status m b.status) _ v e'' in
        rw
          (
            laws.view_meta-IsLocal m m' b.metadata d agree f,
            bucket_spec-IsLocal m m' b.spec s agree g,
            bucket_status-IsLocal m m' b.status t agree h,
          )
          i

    pub bucket-IsDeep : IsDeep (view_bucket view_meta) (bucket_into copy_meta copy_condition)
    bucket-IsDeep m b v e =
        let (d, f, e') = bind-some (view_meta m b.metadata) _ v e in
        let (s, g, e'') = bind-some (view_bucket_spec m b.spec) _ v e' in
        let (t, h, i) = bind-some (view_bucket_status m b.status) _ v e'' in
        three-Copied view_meta view_bucket_spec view_bucket_status (view_bucket view_meta) copy_meta
          bucket_spec_into (bucket_status_into copy_condition)
          (λ d s t. record { metadata = d; spec = s; status = t }) m b.metadata b.spec b.status d s
          t v bucket_spec-IsLocal bucket_status-IsLocal laws.copy_meta-IsDeep
          (λ m e. bucket_spec-IsDeep m b.spec s e) (λ m e. bucket_status-IsDeep m b.status t e) f g
          h (λ m d s t x y z. rw (x, y, z) i)

    pub provider-IsLocal : IsLocal (view_provider view_meta)
    provider-IsLocal m m' b v agree e =
        let (d, f, e') = bind-some (view_meta m b.metadata) _ v e in
        let (t, g, h) = bind-some (view_provider_status m b.status) _ v e' in
        rw
          (
            laws.view_meta-IsLocal m m' b.metadata d agree f,
            provider_status-IsLocal m m' b.status t agree g,
          )
          h

    pub provider-IsDeep : IsDeep (view_provider view_meta) (provider_into copy_meta copy_condition)
    provider-IsDeep m b v e =
        let (d, f, e') = bind-some (view_meta m b.metadata) _ v e in
        let (t, g, h) = bind-some (view_provider_status m b.status) _ v e' in
        two-Copied view_meta view_provider_status (view_provider view_meta) copy_meta
          (provider_status_into copy_condition)
          (λ d t. record { metadata = d; spec = b.spec; status = t }) m b.metadata b.status d t v
          provider_status-IsLocal laws.copy_meta-IsDeep
          (λ m e. provider_status-IsDeep m b.status t e) f g (λ m d t x y. rw (x, y) h)

    pub account-IsLocal : IsLocal (view_account view_meta)
    account-IsLocal m m' b v agree e =
        let (d, f, e') = bind-some (view_meta m b.metadata) _ v e in
        let (t, g, h) = bind-some (view_account_status m b.status) _ v e' in
        rw
          (
            laws.view_meta-IsLocal m m' b.metadata d agree f,
            account_status-IsLocal m m' b.status t agree g,
          )
          h

    pub account-IsDeep : IsDeep (view_account view_meta) (account_into copy_meta copy_condition)
    account-IsDeep m b v e =
        let (d, f, e') = bind-some (view_meta m b.metadata) _ v e in
        let (t, g, h) = bind-some (view_account_status m b.status) _ v e' in
        two-Copied view_meta view_account_status (view_account view_meta) copy_meta
          (account_status_into copy_condition)
          (λ d t. record { metadata = d; spec = b.spec; status = t }) m b.metadata b.status d t v
          account_status-IsLocal laws.copy_meta-IsDeep (λ m e. account_status-IsDeep m b.status t e)
          f g (λ m d t x y. rw (x, y) h)
