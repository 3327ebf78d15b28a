-- ===== src/Tftp/Receiver/Deliver.antt =====
-- What `recvfile` leaves behind when it finishes.
use netkit.Base.{
  All, ℕ, refl, some, none, ◌⊎◌, inl, inr, ◌+◌, ◌^◌, ◌<◌, ◌≡◌, ◌∙◌, ap, Bool, false, List,
}
use netkit.Tftp.Buffers.{Subs}
use netkit.Tftp.Buffers.Netascii.{wire}
use netkit.Tftp.Buffers.Decode.{written-wire}
use netkit.Tftp.Buffers.{contents}
use netkit.Tftp.Packet.{Turn}
use netkit.Tftp.Segments.{fulls}
use netkit.Tftp.Receiver.{Outcome, running, finished, aborted, exited, recvfile, delivered, resend}
use netkit.Tftp.Receiver.Received.{FromFile, Good}
use netkit.Tftp.Receiver.Sound.{recvfile-Good}

module _ (rexmtval maxtimeout : ℕ) where
  pub Good-delivered :
      (file : List ℕ) (convert : Bool) (o : Outcome)
      → Good (wire convert file) convert o
      → (delivered o ≡ none) ⊎ (delivered o ≡ some file)
  Good-delivered file convert (finished r) g =
      inr (ap some (ap contents g.0 ∙ written-wire convert file))
  Good-delivered file convert (running r) g = inl refl
  Good-delivered file convert (aborted r) g = inl refl
  Good-delivered file convert (exited r) g = inl refl

  -- If every data packet that comes in is a segment of the file's wire form under its block
  -- number, lost, repeated and reordered at will among anything else, and the file has fewer
  -- than 2 ^ 16 segments, then `recvfile` does not finish, or it has written the file.
  pub recvfile_delivers :
      (file : List ℕ) (subs : Subs) (convert sends : Bool) (turns : List Turn)
      → fulls (wire convert file) + 1 < 2 ^ 16
      → All (FromFile (wire convert file)) turns
      → let o = recvfile rexmtval maxtimeout subs convert sends turns in
        (delivered o ≡ none) ⊎ (delivered o ≡ some file)
  recvfile_delivers file subs convert sends turns small f =
      Good-delivered file convert (recvfile rexmtval maxtimeout subs convert sends turns)
        (recvfile-Good rexmtval maxtimeout file subs convert sends turns small f)

  Good-resend :
      (xs : List ℕ) (convert : Bool) (n : ℕ) (o : Outcome) → Good xs convert o → resend o n ≡ false
  Good-resend xs convert n (finished r) g = g.1 n
  Good-resend xs convert n (running r) g = refl
  Good-resend xs convert n (aborted r) g = refl
  Good-resend xs convert n (exited r) g = refl

  -- Where every data packet that comes in is a segment of the file's wire form under its own
  -- number, with fewer than 2 ^ 16 segments, a `recvfile` that has finished never sends its last
  -- acknowledgement again, whatever packet of `n` bytes comes in then.
  pub recvfile_no_resend :
      (file : List ℕ) (subs : Subs) (convert sends : Bool) (turns : List Turn) (n : ℕ)
      → fulls (wire convert file) + 1 < 2 ^ 16
      → All (FromFile (wire convert file)) turns
      → resend (recvfile rexmtval maxtimeout subs convert sends turns) n ≡ false
  recvfile_no_resend file subs convert sends turns n small f =
      Good-resend (wire convert file) convert n
        (recvfile rexmtval maxtimeout subs convert sends turns)
        (recvfile-Good rexmtval maxtimeout file subs convert sends turns small f)
