-- ===== src/EtcdClient/Files/Stored.antt =====
-- GetTLSConfigPath of pkg/etcd/helper.go over a file system that keeps what it is given, and New of
-- pkg/etcd/client.go above it.
use kstone.Base.{
  ◌≡◌, refl, ◌∙◌, subst, Bool, true, false, ◌||◌, Option, none, some, [], ◌∷◌, ◌++◌, arith,
  if◌then◌else◌,
}
use kstone.Base.Text.{Text, text, text_eq, text_eq_refl}
use kstone.Base.Effect.{Error, pure, >>=-eq-some}
use kstone.Interfaces.{Result, ok, err}
use kstone.EtcdClient.Files.{
  FileSystem, cli_cert_file, cli_key_file, cli_ca_file, replace_byte, join_path, written, no_files,
  write_in, with_paths, after_key, after_cert, after_dir, get_tls_config_path,
}

-- `read` is the content of the file at a path. A write without an error stores the content, and
-- leaves the other paths.
pub record FileLaws {W : Type 0} (fs : FileSystem W) (read : W → Text → Option Text) : Type 0 where
  pub stored :
      (p d : Text) (w w' : W)
      → fs.write_file p d w ≡ some (none, w')
      → (q : Text) → read w' q ≡ (if text_eq p q then some d else read w q)

text_eq-prefix : (dir a b : Text) → text_eq (dir ++ a) (dir ++ b) ≡ text_eq a b
unfolding text_eq
text_eq-prefix [] a b = refl
text_eq-prefix (c ∷ dir) a b = ground (arith, text_eq-prefix dir a b)

-- The three files have three paths.
apart :
    (dir : Text)
    → (text_eq (join_path dir cli_ca_file) (join_path dir cli_cert_file) ≡ false)
      × (text_eq (join_path dir cli_key_file) (join_path dir cli_cert_file) ≡ false)
      × (text_eq (join_path dir cli_ca_file) (join_path dir cli_key_file) ≡ false)
unfolding text_eq
apart dir = (
  text_eq-prefix dir (text "/" ++ cli_ca_file) (text "/" ++ cli_cert_file),
  text_eq-prefix dir (text "/" ++ cli_key_file) (text "/" ++ cli_cert_file),
  text_eq-prefix dir (text "/" ++ cli_ca_file) (text "/" ++ cli_key_file),
)

module _ {W : Type 0} {fs : FileSystem W} {read : W → Text → Option Text}
    (laws : FileLaws fs read) where
  -- What a write in the directory without an error leaves.
  write_in-stored :
      (dir file d p : Text) (w w' : W)
      → write_in fs dir file d w ≡ some (ok p, w')
      → (p ≡ join_path dir file)
        × ((q : Text) → read w' q ≡ (if text_eq (join_path dir file) q then some d else read w q))
  unfolding write_in written
  write_in-stored dir file d p w w' h =
      let (e, w₁, a, b) = >>=-eq-some _ (fs.write_file (join_path dir file) d) w h in of e a b
    where
      of :
          {w₁ : W} (e : Option Error)
          → fs.write_file (join_path dir file) d w ≡ some (e, w₁)
          → ◌≡◌ {A = Option (Result Text × W)}
              (some (written (join_path dir file) e, w₁))
              (some (ok p, w'))
          → (p ≡ join_path dir file)
            × ((q : Text)
                → read w' q ≡ (if text_eq (join_path dir file) q then some d else read w q))
      of {w₁} none a b =
          let v : w₁ ≡ w' = cc in
          (
            cc,
            laws.stored (join_path dir file) d w w'
                (subst (λ v. fs.write_file (join_path dir file) d w ≡ some (none, v)) v a),
          )
      of (some x) a b = absurd (cc)

  -- The content of the three files.
  abbrev pub Holds : W → Text × Text × Text → (cert key ca : Text) → Type 0
  Holds w (ca_path, cert_path, key_path) cert key ca =
      (read w ca_path ≡ some ca) × (read w cert_path ≡ some cert) × (read w key_path ≡ some key)

  module _ (dir cert key ca : Text) (w₁ : W) (paths : Text × Text × Text) (w' : W) where
    -- What the three writes leave.
    written_all :
        {w₂ w₃ : W} (p q r : Text)
        → write_in fs dir cli_cert_file cert w₁ ≡ some (ok p, w₂)
        → write_in fs dir cli_key_file key w₂ ≡ some (ok q, w₃)
        → write_in fs dir cli_ca_file ca w₃ ≡ some (ok r, w')
        → Holds w' (r, p, q) cert key ca
    written_all {w₂} {w₃} p q r x y z =
        let (pe, pr) = write_in-stored dir cli_cert_file cert p w₁ w₂ x in
        let (qe, qr) = write_in-stored dir cli_key_file key q w₂ w₃ y in
        let (re, rr) = write_in-stored dir cli_ca_file ca r w₃ w' z in
        let (ac, kc, ak) = apart dir in
        (
          rw re
              (rr (join_path dir cli_ca_file) ∙ rw (text_eq_refl (join_path dir cli_ca_file)) refl),
          rw pe (
              rr (join_path dir cli_cert_file)
              ∙ rw ac (
                  qr (join_path dir cli_cert_file)
                  ∙ rw kc (
                      pr (join_path dir cli_cert_file)
                      ∙ rw (text_eq_refl (join_path dir cli_cert_file)) refl))),
          rw qe (
              rr (join_path dir cli_key_file)
              ∙ rw ak (
                  qr (join_path dir cli_key_file)
                  ∙ rw (text_eq_refl (join_path dir cli_key_file)) refl)),
        )

    keyed :
        {w₂ w₃ : W} (p : Text)
        → write_in fs dir cli_cert_file cert w₁ ≡ some (ok p, w₂)
        → (r : Result Text) → write_in fs dir cli_key_file key w₂ ≡ some (r, w₃)
        → after_key fs dir ca p r w₃ ≡ some (ok paths, w')
        → Holds w' paths cert key ca
    unfolding after_key with_paths
    keyed p x (err e) y h = absurd (cc)
    keyed {w₂} {w₃} p x (ok q) y h =
        let (r, w₄, z, k) = >>=-eq-some _ (write_in fs dir cli_ca_file ca) w₃ h in last r z k
      where
        last :
            {w₄ : W} (r : Result Text)
            → write_in fs dir cli_ca_file ca w₃ ≡ some (r, w₄)
            → ◌≡◌ {A = Option (Result (Text × Text × Text) × W)}
                (some (with_paths p q r, w₄))
                (some (ok paths, w'))
            → Holds w' paths cert key ca
        last (err e) z k = absurd (cc)
        last {w₄} (ok r) z k =
            let v : w₄ ≡ w' = cc in
            let u : (r, p, q) ≡ paths = cc in
            subst (λ ps. Holds w' ps cert key ca) u
              (written_all p q r x y
                (subst (λ v. write_in fs dir cli_ca_file ca w₃ ≡ some (ok r, v)) v z))

    certified :
        {w₂ : W} (r : Result Text)
        → write_in fs dir cli_cert_file cert w₁ ≡ some (r, w₂)
        → after_cert fs dir key ca r w₂ ≡ some (ok paths, w')
        → Holds w' paths cert key ca
    unfolding after_cert
    certified (err e) x h = absurd (cc)
    certified {w₂} (ok p) x h =
        let (r, w₃, y, k) = >>=-eq-some _ (write_in fs dir cli_key_file key) w₂ h in keyed p x r y k

  -- The answer of GetTLSConfigPath without an error: no paths and no change where a part is missing.
  abbrev pub Certified : W → W → Text × Text × Text → (cert key ca : Text) → Bool → Type 0
  Certified w w' paths cert key ca true = (paths ≡ no_files) × (w' ≡ w)
  Certified w w' paths cert key ca false = Holds w' paths cert key ca

  -- GetTLSConfigPath without an error: if the certificate, the key or the CA is empty, it answers
  -- three empty paths and writes nothing; else each path that it answers is that of a file with the
  -- part it stands for. The file system keeps what it is given.
  pub get_tls_config_path-stored :
      (cluster cert key ca : Text) (paths : Text × Text × Text) (w w' : W)
      → get_tls_config_path fs cluster cert key ca w ≡ some (ok paths, w')
      → Certified w w' paths cert key ca (text_eq cert [] || (text_eq key [] || text_eq ca []))
  unfolding get_tls_config_path after_dir
  get_tls_config_path-stored cluster cert key ca paths w w' h =
      of (text_eq cert [] || (text_eq key [] || text_eq ca [])) h
    where
      made :
          (w₁ : W) (r : Result Text)
          → after_dir fs cert key ca r w₁ ≡ some (ok paths, w')
          → Holds w' paths cert key ca
      made w₁ (err e) k = absurd (cc)
      made w₁ (ok dir) k =
          let (r, w₂, x, m) = >>=-eq-some _ (write_in fs dir cli_cert_file cert) w₁ k in
          certified dir cert key ca w₁ paths w' r x m

      of :
          (b : Bool)
          → ◌≡◌ {A = Option (Result (Text × Text × Text) × W)}
              ((if b then pure (ok no_files) else (λ w.
                  elim (fs.temp_dir (replace_byte b'/' b'_' cluster) w) [
                    | none ↦ none
                    | some (dir, v) ↦ after_dir fs cert key ca dir v
                  ]))
                w)
              (some (ok paths, w'))
          → Certified w w' paths cert key ca b
      of true k = (cc, cc)
      of false k =
          let (dir, w₁, x, m) =
            >>=-eq-some (after_dir fs cert key ca) (fs.temp_dir (replace_byte b'/' b'_' cluster)) w
              k in
          made w₁ dir m
