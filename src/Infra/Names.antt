-- ===== src/Infra/Names.antt =====
-- cmd/dixmgr/helpers.go: the names of signals and workflows.
use Prim.Native.String.{count}
use Prim.Native.String
use text.Mathlib.TextLemmas.{append_assoc, append_inj}
use dotidx.Prelude.{ℕ, ◌≡◌, ◌≢◌, refl, sym, ◌∙◌, false, String, str_eq, eq_iff, true≢false}

-- `fmt.Sprintf` of texts one after another
abbrev pub str_append : String → String → String
str_append s t = String.◌++◌ s t

abbrev pub ready_signal_relay : String → String
ready_signal_relay relay = str_append "ready:relay:" relay

abbrev pub ready_signal_para : String → String → String
ready_signal_para relay chain = str_append "ready:para:" (str_append relay (str_append ":" chain))

abbrev pub ready_signal_sidecar : (ℕ → String) → String → String → ℕ → String
ready_signal_sidecar itoa relay chain idx =
    str_append "ready:sidecar:"
      (str_append relay (str_append ":" (str_append chain (str_append ":" (itoa idx)))))

abbrev pub ready_signal_svc : String → String
ready_signal_svc name = str_append "ready:svc:" name

abbrev pub workflow_id_infra : String
workflow_id_infra = "wf.infra"

abbrev pub workflow_id_node_relay : String → String
workflow_id_node_relay relay = str_append "wf.node.relay." relay

abbrev pub workflow_id_node_para : String → String → String
workflow_id_node_para relay chain =
    str_append "wf.node.para." (str_append relay (str_append "." chain))

abbrev pub workflow_id_sidecar : (ℕ → String) → String → String → ℕ → String
workflow_id_sidecar itoa relay chain idx =
    str_append "wf.sidecar."
      (str_append relay (str_append "." (str_append chain (str_append "." (itoa idx)))))

abbrev pub workflow_id_svc : String → String
workflow_id_svc name = str_append "wf.svc." name

-- Texts that begin differently are different.
apart :
    (p q s t : String) → count p ≡ count q → str_eq p q ≡ false → str_append p s ≢ str_append q t
apart p q s t n d e = true≢false (sym ((eq_iff p q).1 (append_inj e n).0) ∙ d)

-- The workflow that everything reports to is none of those that wait.
pub infra≢para : (relay chain : String) → workflow_id_infra ≢ workflow_id_node_para relay chain
infra≢para relay chain e =
    apart "wf.i" "wf.n" "nfra" _ refl refl (e ∙ append_assoc "wf.n" "ode.para." _)

pub infra≢sidecar :
    (itoa : ℕ → String) (relay chain : String) (idx : ℕ)
    → workflow_id_infra ≢ workflow_id_sidecar itoa relay chain idx
infra≢sidecar itoa relay chain idx e =
    apart "wf.i" "wf.s" "nfra" _ refl refl (e ∙ append_assoc "wf.s" "idecar." _)

pub infra≢svc : (name : String) → workflow_id_infra ≢ workflow_id_svc name
infra≢svc name e = apart "wf.i" "wf.s" "nfra" _ refl refl (e ∙ append_assoc "wf.s" "vc." _)
