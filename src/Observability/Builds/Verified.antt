-- ===== src/Observability/Builds/Verified.antt =====
-- A build manifest (observability/builds.py) in the state that it was made from.
use marketforge.Prelude.{
  ◌≡◌, refl, sym, ap, ◌∙◌, subst, Option, none, some, String, String_discrete, List, [], ok,
  raise_if, if_pos, if_neg, All,
}
use marketforge.Prelude.Dict.{lookup, insert, lookup-insert}
use marketforge.Ingestion.Values.{Datetime, Row, Raises}
use marketforge.Ingestion.Contracts.{is_empty}
use marketforge.Ingestion.Contracts.Steps.{>>=-eq-ok}
use marketforge.Observability.Builds.{
  Identity, Identity_discrete, Manifest, Digests, Repo, git_state, code_hash, source_partitions,
  against, keep_or_write, identity_of, create_build_manifest, verify_manifest,
  verify_build_manifest,
}
use marketforge.Observability.Builds.Described.{
  AreStored, Describes, verify_manifest-nil, items_of-Describes,
}

ok_injective : {A : Type 0} (a b : A) → ◌≡◌ {A = Raises A} (ok a) (ok b) → a ≡ b
ok_injective a b h = cc h

module _ {File : Type 0} (d : Digests File) (rows_of : File → List Row) where
  -- The manifest and the state after it was stored or found.
  abbrev StoredAs : Manifest → Repo File → Manifest × Repo File → Type 0
  StoredAs m s (out, t) =
      (out.identity ≡ m.identity)
      × (out.build_id ≡ m.build_id)
      × (lookup String_discrete out.build_id t.manifests ≡ some out)
      × ◌≡◌ {A = Repo File} (record s { manifests = t.manifests }) t
      × AreStored d rows_of t

  insert-AreStored :
      (m : Manifest) (s : Repo File)
      → AreStored d rows_of s
      → m.build_id ≡ d.hash_bytes (d.json m.identity)
      → AreStored d rows_of
          (record s { manifests = insert String_discrete m.build_id m s.manifests })
  unfolding AreStored
  insert-AreStored m s stored id k n e =
      let found = lookup-insert String_discrete m.build_id k m s.manifests in
      elim (String_discrete m.build_id k) [
        | yes same ↦
            let is : m ≡ n =
              cc (sym (found ∙ if_pos (String_discrete m.build_id k) same _ _) ∙ e) in
            (cc (is, same), cc (is, same, id))
        | no differs ↦
            stored k n (sym (found ∙ if_neg (String_discrete m.build_id k) differs _ _) ∙ e)
      ]

  against-StoredAs :
      (m : Manifest) (s : Repo File) (o : Option Manifest) (q : Manifest × Repo File)
      → AreStored d rows_of s
      → m.build_id ≡ d.hash_bytes (d.json m.identity)
      → lookup String_discrete m.build_id s.manifests ≡ o
      → against d rows_of m s o ≡ ok q
      → StoredAs m s q
  unfolding against
  against-StoredAs m s none q stored id e h = subst (StoredAs m s) (ok_injective _ q h) (
    refl,
    refl,
    lookup-insert String_discrete m.build_id m.build_id m s.manifests
        ∙ if_pos (String_discrete m.build_id m.build_id) refl _ _,
    refl,
    insert-AreStored m s stored id,
  )
  against-StoredAs m s (some old) q stored id e h =
      elim (Identity_discrete old.identity m.identity) [
        | yes same ↦
            let own : old.build_id ≡ m.build_id = unfold AreStored in (stored m.build_id old e).0 in
            subst (StoredAs m s)
              (ok_injective (old, s) q
                (sym (if_pos (Identity_discrete old.identity m.identity) same _ _) ∙ h))
              (
                same,
                own,
                subst (λ k. lookup String_discrete k s.manifests ≡ some old) (sym own) e,
                refl,
                stored,
              )
        | no differs ↦
            let no = sym (if_neg (Identity_discrete old.identity m.identity) differs _ _) ∙ h in
            absurd (cc no)
      ]

  -- What a manifest that was created from a state is, and the state after it.
  pub record Made (s : Repo File) (m : Manifest) (t : Repo File) : Type 0 where
    pub git : String × String
    pub state : git_state d s ≡ ok git
    pub commit : m.identity.git_commit ≡ git.0
    pub worktree : m.identity.git_worktree ≡ git.1
    pub code : m.identity.dbt_code_hash ≡ code_hash d s
    pub id : m.build_id ≡ d.hash_bytes (d.json m.identity)
    pub described : All (Describes d rows_of s) m.identity.source_partitions
    pub there : lookup String_discrete m.build_id t.manifests ≡ some m
    pub state_after : ◌≡◌ {A = Repo File} (record s { manifests = t.manifests }) t
    pub stored : AreStored d rows_of t

  Made-stored :
      (s t : Repo File) (m : Manifest) (identity : Identity) (now : Datetime)
      (git : String × String)
      → StoredAs
          (record {
            build_id = d.hash_bytes (d.json identity);
            identity = identity;
            created_at = now;
          })
          s
          (m, t)
      → git_state d s ≡ ok git
      → (identity.git_commit ≡ git.0)
        × (identity.git_worktree ≡ git.1)
        × (identity.dbt_code_hash ≡ code_hash d s)
      → All (Describes d rows_of s) identity.source_partitions
      → Made s m t
  Made-stored s t m identity now git (same, id, there, after, kept) state (commit, worktree, code)
        all =
      record {
        git = git;
        state = state;
        commit = ap (λ (i : Identity). i.git_commit) same ∙ commit;
        worktree = ap (λ (i : Identity). i.git_worktree) same ∙ worktree;
        code = ap (λ (i : Identity). i.dbt_code_hash) same ∙ code;
        id = id ∙ ap (λ i. d.hash_bytes (d.json i)) (sym same);
        described =
            subst (λ (i : Identity). All (Describes d rows_of s) i.source_partitions) (sym same)
              all;
        there = there;
        state_after = after;
        stored = kept;
      }

  pub create-Made :
      (datasets : List String) (parameters : List (String × String)) (now : Datetime)
      (s t : Repo File) (m : Manifest)
      → AreStored d rows_of s
      → create_build_manifest d rows_of datasets parameters now s ≡ ok (m, t)
      → Made s m t
  unfolding create_build_manifest keep_or_write identity_of source_partitions
  create-Made datasets parameters now s t m stored h =
      let (items, found, h1) = >>=-eq-ok (source_partitions d rows_of datasets s) _ (m, t) h in
      let (u, some_items, h2) = >>=-eq-ok (raise_if (is_empty items) _) _ (m, t) h1 in
      let (git, state, h3) = >>=-eq-ok (git_state d s) _ (m, t) h2 in
      let identity = identity_of d rows_of datasets parameters items git s in
      Made-stored s t m identity now git (against-StoredAs _ s _ (m, t) stored refl refl h3) state
        (refl, refl, refl) (items_of-Describes d rows_of s datasets _ items found)

  verified :
      (s : Repo File) (manifests : List (String × Manifest)) (m : Manifest) (git : String × String)
      → lookup String_discrete m.build_id manifests ≡ some m
      → git_state d s ≡ ok git
      → verify_manifest d m git (record s { manifests = manifests }) ≡ []
      → verify_build_manifest d m.build_id (record s { manifests = manifests }) ≡ ok []
  unfolding verify_build_manifest git_state
  verified s manifests m git there state quiet =
      rw (there, verify_build_manifest, state) (ap ok quiet)

  Made-verified :
      (s t : Repo File) (m : Manifest) → Made s m t → verify_build_manifest d m.build_id t ≡ ok []
  unfolding code_hash Describes
  Made-verified s t m h =
      subst (λ (r : Repo File). verify_build_manifest d m.build_id r ≡ ok []) h.state_after
        (verified s t.manifests m h.git h.there h.state (
          verify_manifest-nil d rows_of m h.git (record s { manifests = t.manifests }) h.commit
            h.worktree h.code h.id h.described))

  -- A manifest that was made from a state and then verified in the state after it shows no
  -- difference, if each stored manifest stood under the digest of its identity; and so they still do.
  pub verify-create :
      (datasets : List String) (parameters : List (String × String)) (now : Datetime)
      (s t : Repo File) (m : Manifest)
      → AreStored d rows_of s
      → create_build_manifest d rows_of datasets parameters now s ≡ ok (m, t)
      → (verify_build_manifest d m.build_id t ≡ ok []) × AreStored d rows_of t
  verify-create datasets parameters now s t m stored h =
      let made = create-Made datasets parameters now s t m stored h in
      (Made-verified s t m made, made.stored)
