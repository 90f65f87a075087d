-- ===== src/Domain/Artifacts.antt =====
-- src/specstyle/domain/artifacts.py. The references carry no path, and `==` compares both fields.
use lookfile.Prelude.{◌≡◌, ◌↔◌, Bool, true, ◌&&◌, Eq, ◌==◌, nat_eq, list_eq, list_beq_iff, arith}
use lookfile.Domain.Identifiers.{AssetId, ArtifactId, Sha256}

pub record AssetRef : Type 0 where
  pub asset_id : AssetId
  pub sha256 : Sha256

pub record ArtifactRef : Type 0 where
  pub artifact_id : ArtifactId
  pub sha256 : Sha256

abbrev artifact_ref_beq : ArtifactRef → ArtifactRef → Bool
artifact_ref_beq a b = a.artifact_id == b.artifact_id && a.sha256 == b.sha256

pub artifact_ref_beq_iff : (a b : ArtifactRef) → (artifact_ref_beq a b ≡ true) ↔ (a ≡ b)
artifact_ref_beq_iff a b =
    ground (arith, list_beq_iff a.artifact_id b.artifact_id, list_beq_iff a.sha256 b.sha256)

instance abbrev pub artifact_ref_eq : Eq ArtifactRef
artifact_ref_eq = record { beq = artifact_ref_beq; beq_iff = artifact_ref_beq_iff }
