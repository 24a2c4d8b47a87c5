-- ===== src/Monitor/Frame.antt =====
-- What the core's steps leave alone of the shared block.
use bmboot.Base.{◌≡◌, ap, ◌∙◌, Option, none, some, subst}
use bmboot.Bus.{Bus}
use bmboot.Ipc.{ManagerToExecutor}
use bmboot.Monitor.{Executor}
use bmboot.Stdout.Contents.{IsValid, IsValid-of}

-- The manager's half, the acknowledgement and memory are as they were, and the output's positions stay in range.
pub record Frame {b : Bus} (e e' : Executor b) : Type 0 where
  pub inbox : e'.block.to_executor ≡ e.block.to_executor
  pub ack : e'.block.to_manager.cmd_ack ≡ e.block.to_manager.cmd_ack
  pub memory : e'.memory ≡ e.memory
  pub stdout : IsValid e.block → IsValid e'.block

-- A property of the result, where there is one.
abbrev pub OnSome {ℓ κ} : {A : Type ℓ} → (A → Type κ) → Option A → Type κ
OnSome P none = Unit
OnSome P (some a) = P a

pub on_some {ℓ κ} :
    {A : Type ℓ} (P : A → Type κ) (o : Option A) (a : A) → OnSome P o → o ≡ some a → P a
on_some P o a p same = subst (OnSome P) same p

pub OnSome-map {ℓ κ ι} :
    {A : Type ℓ} (P : A → Type κ) (Q : A → Type ι) (o : Option A)
    → ((a : A) → P a → Q a)
    → OnSome P o
    → OnSome Q o
OnSome-map P Q none f p = tt
OnSome-map P Q (some a) f p = f a p

-- The output is kept where its positions and its bytes are as they were.
pub Frame-of :
    {b : Bus} (e e' : Executor b)
    → e'.block.to_executor ≡ e.block.to_executor
    → e'.block.to_manager.cmd_ack ≡ e.block.to_manager.cmd_ack
    → e'.block.to_manager.stdout_buf ≡ e.block.to_manager.stdout_buf
    → e'.block.to_manager.stdout_wrpos ≡ e.block.to_manager.stdout_wrpos
    → e'.memory ≡ e.memory
    → Frame e e'
Frame-of e e' inbox ack buf wrpos memory = record {
  memory = memory;
  inbox = inbox;
  ack = ack;
  stdout =
      IsValid-of e.block e'.block buf wrpos (ap (λ (o : ManagerToExecutor). o.stdout_rdpos) inbox);
}

pub Frame-trans : {b : Bus} (e e1 e2 : Executor b) → Frame e e1 → Frame e1 e2 → Frame e e2
Frame-trans e e1 e2 f g = record {
  inbox = g.inbox ∙ f.inbox;
  ack = g.ack ∙ f.ack;
  memory = g.memory ∙ f.memory;
  stdout = λ v. g.stdout (f.stdout v);
}
