-- ===== src/Run/Kept.antt =====
-- What `cmd_run` of crates/mirum-vm/src/main.rs does to the image store on its way to the machine.
use mirum.Base.{
  String, ℕ, ◌≡◌, refl, sym, subst, List, [], ◌∷◌, true, false, Bool, Result, ok, err, is_some,
}
use mirum.Base.Exec.{Exec, Stays, Stays-pure, Stays-lift, Stays-gets, Stays-if, Stays-bind}
use mirum.Hmi.Json.{Json}
use mirum.Oci.Types.{Bytes}
use mirum.Oci.World.{Error, World, Outcome, done, failed, torn, External}
use mirum.Oci.Storage.{read_blob, read_index, is_absent, copy_out, link_out, export_hmi_file}
use mirum.Oci.Storage.Blobs.{IsSound, KeepsBlobs, Grows, Grows-order, Grows-KeepsBlobs}
use mirum.Oci.Storage.Quiet.{
  Quiet, Quiet-order, Quiet-same, Quiet-access, Quiet-outcome, Quiet-found,
}
use mirum.Oci.Registry.{Registry, contains, export_titles, materialize}
use mirum.Oci.Tagging.{pull-Tags}
use mirum.Run.{lifted, in_store, fetch, cmd_run}

module _ (X : External) where
  pub Quiet-read_index : Stays (Quiet X) read_index
  unfolding read_index
  Quiet-read_index = Stays-bind (Quiet-order X) _ _ (Quiet-access X) λ _.
      Stays-bind (Quiet-order X) _ _ (Stays-gets (Quiet-order X) _) λ file.
        Stays-bind (Quiet-order X) _ _
          (Stays-if (Quiet-order X) (is_absent file) _ _ (Stays-pure (Quiet-order X) _)
            (Quiet-access X))
          (λ _. Stays-lift (Quiet-order X) _)

  pub Quiet-read_blob : (digest : String) → Stays (Quiet X) (read_blob digest)
  unfolding read_blob
  Quiet-read_blob digest = Stays-bind (Quiet-order X) _ _ (Stays-lift (Quiet-order X) _) λ name.
      Stays-bind (Quiet-order X) _ _ (Quiet-access X) λ _.
        Stays-bind (Quiet-order X) _ _ (Stays-gets (Quiet-order X) _) λ blob. Quiet-found X blob

  Quiet-copy_out :
      (name : String) (bytes : Bytes) (o : Outcome) → Stays (Quiet X) (copy_out name bytes o)
  unfolding copy_out
  Quiet-copy_out name bytes done = record { at = λ w. Quiet-same X w _ refl refl }
  Quiet-copy_out name bytes failed = record { at = λ w. Quiet-same X w _ refl refl }
  Quiet-copy_out name bytes (torn n) = record { at = λ w. Quiet-same X w _ refl refl }

  Quiet-link_out :
      (name : String) (bytes : Bytes) (o : Outcome) → Stays (Quiet X) (link_out name bytes o)
  unfolding link_out
  Quiet-link_out name bytes done = record { at = (Quiet-copy_out name bytes done).at }
  Quiet-link_out name bytes failed = record {
    at = (Stays-bind (Quiet-order X) _ _ (Quiet-outcome X) (Quiet-copy_out name bytes)).at;
  }
  Quiet-link_out name bytes (torn n) = record {
    at = (Stays-bind (Quiet-order X) _ _ (Quiet-outcome X) (Quiet-copy_out name bytes)).at;
  }

  Quiet-export_hmi_file : (digest title : String) → Stays (Quiet X) (export_hmi_file digest title)
  unfolding export_hmi_file
  Quiet-export_hmi_file digest title =
      Stays-bind (Quiet-order X) _ _ (Stays-lift (Quiet-order X) _) λ path.
        Stays-bind (Quiet-order X) _ _ (Quiet-access X) λ _.
          Stays-bind (Quiet-order X) _ _ (Stays-gets (Quiet-order X) _) λ there.
            Stays-bind (Quiet-order X) _ _ (Stays-gets (Quiet-order X) _) λ source.
              Stays-if (Quiet-order X) (is_some there) _ _ (Stays-pure (Quiet-order X) _) (
                Stays-bind (Quiet-order X) _ _ (Quiet-found X source) λ bytes.
                  Stays-bind (Quiet-order X) _ _ (Quiet-outcome X) (Quiet-link_out title bytes))

  Quiet-export_titles :
      (digest : String) (ts : List String) → Stays (Quiet X) (export_titles digest ts)
  unfolding export_titles
  Quiet-export_titles digest [] = Stays-pure (Quiet-order X) _
  Quiet-export_titles digest (t ∷ ts) =
      Stays-bind (Quiet-order X) _ _ (Quiet-export_hmi_file digest t)
        λ _. Quiet-export_titles digest ts

  Quiet-contains : (reference : String) → Stays (Quiet X) (contains reference)
  unfolding contains
  Quiet-contains reference =
      Stays-bind (Quiet-order X) _ _ Quiet-read_index λ index. Stays-pure (Quiet-order X) _

  Quiet-materialize : (reference : String) → Stays (Quiet X) (materialize X reference)
  unfolding materialize
  Quiet-materialize reference = Stays-bind (Quiet-order X) _ _ Quiet-read_index λ index.
      Stays-bind (Quiet-order X) _ _ (Stays-lift (Quiet-order X) _) λ digest.
        Stays-bind (Quiet-order X) _ _ (Quiet-read_blob digest) λ bytes.
          Stays-bind (Quiet-order X) _ _ (Stays-lift (Quiet-order X) _) λ manifest.
            Stays-bind (Quiet-order X) _ _ (Quiet-read_blob _) λ config.
              Stays-bind (Quiet-order X) _ _ (Quiet-access X) λ _.
                Stays-bind (Quiet-order X) _ _ (Quiet-outcome X) λ o.
                  Stays-bind (Quiet-order X) _ _ (Quiet-copy_out _ config o) λ _.
                    Stays-bind (Quiet-order X) _ _ (Quiet-export_titles digest _)
                      λ _. Stays-pure (Quiet-order X) _

  -- `materialize`, however it ends, leaves the index and every blob of a sound store as they are.
  pub materialize-index :
      (reference : String) (w : World)
      → IsSound X w
      → let w' = (materialize X reference w).1 in
        IsSound X w' × KeepsBlobs w w' × (w'.index ≡ w.index)
  materialize-index reference w sound =
      let quiet = (Quiet-materialize reference).at w in
      (quiet.grows.sound sound, Grows-KeepsBlobs X quiet.grows, quiet.index)

  module _ (J : Json) where
    state-lifted : {A : Type 0} (p : Result Error A × World) → (lifted J p).1 ≡ p.1
    state-lifted (ok a, w) = refl
    state-lifted (err e, w) = refl

    Grows-in_store :
        {A : Type 0} (m : Exec World Error A) → Stays (Grows X) m → Stays (Grows X) (in_store J m)
    Grows-in_store m h = record { at = λ w. subst (Grows X w) (sym (state-lifted (m w))) (h.at w) }

    grows : {A : Type 0} {m : Exec World Error A} → Stays (Quiet X) m → Stays (Grows X) m
    grows h = record { at = λ w. (h.at w).grows }

    Grows-fetch :
        (R : Registry) (reference : String) (there : Bool)
        → Stays (Grows X) (fetch J X R reference there)
    unfolding fetch
    Grows-fetch R reference true = Stays-pure (Grows-order X) _
    Grows-fetch R reference false =
        Stays-bind (Grows-order X) _ _ (Grows-in_store _ (pull-Tags X R reference).grows)
          (λ _. Stays-pure (Grows-order X) _)

    pub cmd_run-Grows :
        (R : Registry) (reference scratch : String) (port : ℕ)
        → Stays (Grows X) (cmd_run J X R reference scratch port)
    unfolding cmd_run
    cmd_run-Grows R reference scratch port =
        Stays-bind (Grows-order X) _ _ (Grows-in_store _ (grows (Quiet-contains reference)))
          λ there. Stays-bind (Grows-order X) _ _ (Grows-fetch R reference there) λ _.
            Stays-bind (Grows-order X) _ _ (Grows-in_store _ (grows (Quiet-materialize reference)))
              (λ config. Stays-lift (Grows-order X) _)

    -- `cmd_run`, whatever the registry returns and however the file system fails, keeps a sound store
    -- sound and changes and removes no blob.
    pub cmd_run-IsSound :
        (R : Registry) (reference scratch : String) (port : ℕ) (w : World)
        → IsSound X w
        → let w' = (cmd_run J X R reference scratch port w).1 in IsSound X w' × KeepsBlobs w w'
    cmd_run-IsSound R reference scratch port w sound =
        let g = (cmd_run-Grows R reference scratch port).at w in
        (g.sound sound, Grows-KeepsBlobs X g)
