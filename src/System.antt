-- ===== src/System.antt =====
-- Clients and the server together: what one sends is what the other gets.
pub mod Answers
pub mod Requests
pub mod Exchange
use volo_db.Prelude.{Text, List, [], ◌∷◌, ◌≡◌, text_eq, if◌then◌else◌}

-- The ROUTER socket between the server's transport and the clients, which is ZeroMQ's: each message
-- that is sent on it goes to the client that its first part names, without that part, and the order
-- is kept.
pub record Router : Type 0 where
  pub route : Text → List (List Text) → List Text
  pub route_nothing : (client : Text) → route client [] ≡ []
  pub route_message :
      (client envelope bytes : Text) (messages : List (List Text))
      → route client ((envelope ∷ bytes ∷ []) ∷ messages)
        ≡ (if text_eq envelope client then bytes ∷ route client messages else route client messages)
