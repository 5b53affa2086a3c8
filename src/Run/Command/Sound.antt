-- ===== src/Run/Command/Sound.antt =====
-- No command harms the image store (crates/mirum-vm/src/main.rs).
use mirum.Base.{ℕ, String, Bool, Option, none, some, List, [], ◌∷◌, Result, ok, err}
use mirum.Base.Exec.{Stays, Stays-pure, Stays-lift, Stays-raise, Stays-if, Stays-bind}
use mirum.Hmi.Json.{Json}
use mirum.Oci.Types.{OciDescriptor}
use mirum.Oci.World.{World, External, Error as ImageError}
use mirum.Oci.Storage.{open_storage}
use mirum.Oci.Storage.Blobs.{IsSound, KeepsBlobs, Grows, Grows-order, Grows-KeepsBlobs}
use mirum.Oci.Storage.Quiet.{Quiet, Quiet-order, Quiet-access}
use mirum.Oci.Images.{load, load_directory}
use mirum.Oci.Untagged.{Quiet-store_directory}
use mirum.Oci.Registry.{Registry, read_layers, read_upload, push}
use mirum.Oci.Tagging.{pull-Tags, load-Tags}
use mirum.Run.Kept.{Quiet-read_index, Quiet-read_blob, cmd_run-Grows}
use mirum.Run.Command.{
  Command, image_pull, image_push, image_load, machine_run, Host, dispatch, opened, at_home, main,
}

module _ (X : External) where
  Quiet-open_storage : (has_layout : Bool) → Stays (Quiet X) (open_storage has_layout)
  unfolding open_storage
  Quiet-open_storage has_layout = Stays-bind (Quiet-order X) _ _ (Quiet-access X) λ _.
      Stays-bind (Quiet-order X) _ _ (Quiet-access X) λ _.
        Stays-bind (Quiet-order X) _ _ (Quiet-access X) λ _.
          Stays-if (Quiet-order X) has_layout _ _ (Stays-pure (Quiet-order X) _) (Quiet-access X)

  Quiet-read_layers : (ds : List OciDescriptor) → Stays (Quiet X) (read_layers ds)
  unfolding read_layers
  Quiet-read_layers [] = Stays-pure (Quiet-order X) _
  Quiet-read_layers (d ∷ ds) = Stays-bind (Quiet-order X) _ _ (Quiet-read_blob X d.digest) λ bytes.
      Stays-bind (Quiet-order X) _ _ (Quiet-read_layers ds) λ layers. Stays-pure (Quiet-order X) _

  Quiet-read_upload : (reference : String) → Stays (Quiet X) (read_upload X reference)
  unfolding read_upload
  Quiet-read_upload reference = Stays-bind (Quiet-order X) _ _ (Quiet-read_index X) λ index.
      Stays-bind (Quiet-order X) _ _ (Stays-lift (Quiet-order X) _) λ digest.
        Stays-bind (Quiet-order X) _ _ (Quiet-read_blob X digest) λ bytes.
          Stays-bind (Quiet-order X) _ _ (Stays-lift (Quiet-order X) _) λ manifest.
            Stays-bind (Quiet-order X) _ _ (Stays-lift (Quiet-order X) _) λ _.
              Stays-bind (Quiet-order X) _ _ (Quiet-read_layers _) λ layers.
                Stays-bind (Quiet-order X) _ _ (Quiet-read_blob X _)
                  λ config. Stays-pure (Quiet-order X) _

  -- Pushing changes neither the index nor a blob.
  Quiet-push : (R : Registry) (reference : String) → Stays (Quiet X) (push X R reference)
  unfolding push
  Quiet-push R reference = Stays-bind (Quiet-order X) _ _ (Quiet-read_upload reference) λ upload.
      Stays-if (Quiet-order X) (R.push reference upload) _ _ (Stays-pure (Quiet-order X) _)
        (Stays-raise (Quiet-order X) _)

  Grows-load :
      (J : Json) (path : String) (stat : _) (entries : _) (reference : Option String)
      → Stays (Grows X) (load X J path stat entries reference)
  unfolding load load_directory
  Grows-load J path stat entries (some reference) =
      (load-Tags X J path stat entries reference).grows
  Grows-load J path stat entries none = record { at = λ w. (quiet.at w).grows }
    where
      quiet : Stays (Quiet X) (load X J path stat entries none)
      quiet = Stays-bind (Quiet-order X) _ _ (Quiet-access X) λ _.
          Stays-bind (Quiet-order X) _ _ (Stays-lift (Quiet-order X) _) λ bytes.
            Stays-bind (Quiet-order X) _ _ (Quiet-access X) λ _.
              Stays-bind (Quiet-order X) _ _ (Stays-lift (Quiet-order X) _) λ _.
                Stays-bind (Quiet-order X) _ _ (Quiet-access X) λ _.
                  Stays-bind (Quiet-order X) _ _ (Quiet-store_directory X bytes _)
                    λ stored. Stays-pure (Quiet-order X) _

  module _ (J : Json) (H : Host) (fuel rounds : ℕ) where
    main-Grows : (command : Command) (w : World) → Grows X w (main J X H fuel rounds command w).1
    unfolding main dispatch
    main-Grows command w = with_home H.home
      where
        dispatched :
            (command : Command) (w : World) → Grows X w (dispatch J X H fuel rounds command w).1
        dispatched (image_pull name) w = ((pull-Tags X H.registry name).grows).at w
        dispatched (image_push name) w = ((Quiet-push H.registry name).at w).grows
        dispatched (image_load image reference) w =
            (Grows-load J image (H.directory image).0 (H.directory image).1 reference).at w
        dispatched (machine_run image port) w =
            (cmd_run-Grows X J H.registry image H.scratch port).at w

        after :
            (p : Result ImageError (Unit {0}) × World)
            → Grows X w p.1
            → Grows X w (opened J X H fuel rounds command p).1
        after (ok u, w') g = (Grows-order X).trans w w' _ g (dispatched command w')
        after (err e, w') g = g

        with_home : (home : Option String) → Grows X w (at_home J X H fuel rounds command home w).1
        with_home none = (Grows-order X).refl w
        with_home (some home) =
            after (open_storage H.has_layout w) ((Quiet-open_storage H.has_layout).at w).grows

    -- Whatever the command is, and however it ends: it keeps a sound store sound, and changes and
    -- removes no blob.
    pub main-IsSound :
        (command : Command) (w : World)
        → IsSound X w
        → let w' = (main J X H fuel rounds command w).1 in IsSound X w' × KeepsBlobs w w'
    main-IsSound command w sound =
        let g = main-Grows command w in (g.sound sound, Grows-KeepsBlobs X g)
