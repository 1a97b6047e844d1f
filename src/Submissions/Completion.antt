-- ===== src/Submissions/Completion.antt =====
-- `AcceptSubmission` and `RejectSubmission`: a submission is completed once.
